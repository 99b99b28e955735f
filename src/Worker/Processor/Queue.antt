-- ===== src/Worker/Processor/Queue.antt =====
-- Any number of calls of `ProcessTaskInvoice` on one queue.
use mathlib.Core.List.{Perm, perm_append_singleton}
use mathlib.Core.List.Perm
use belajar_backend_go_v.Base.{
  ◌≡◌, refl, ap, ◌∙◌, inl, inr, false, Option, none, some, List, [], ◌∷◌, ◌++◌, map, ℕ, ltb, length,
  arith,
}
use belajar_backend_go_v.Json.{Document, json}
use belajar_backend_go_v.Models.{TaskSendInvoice, queue_invoice}
use belajar_backend_go_v.Models.Codec.{encode_task}
use belajar_backend_go_v.Models.RoundTrip.{IsTask}
use belajar_backend_go_v.Services.{Result-cases}
use belajar_backend_go_v.Worker.Processor.{Queues, Processed, process_task_invoice}
use belajar_backend_go_v.Worker.Processor.Delivery.{IsQueues, process_task_invoice_lem}

abbrev pub payloads : List TaskSendInvoice → List Document
payloads = map (λ t. json (encode_task t))

payloads-append_one :
    (ts : List TaskSendInvoice) (t : TaskSendInvoice)
    → payloads ts ++ json (encode_task t) ∷ [] ≡ payloads (ts ++ t ∷ [])
payloads-append_one [] t = refl
payloads-append_one (x ∷ ts) t = ap (λ ds. json (encode_task x) ∷ ds) (payloads-append_one ts t)

abbrev pub AllTasks : List TaskSendInvoice → Type 0
AllTasks [] = Unit
AllTasks (t ∷ ts) = IsTask t × AllTasks ts

AllTasks-append_one :
    (ts : List TaskSendInvoice) (t : TaskSendInvoice)
    → AllTasks ts
    → IsTask t
    → AllTasks (ts ++ t ∷ [])
AllTasks-append_one [] t hts ht = (ht, tt)
AllTasks-append_one (x ∷ ts) t (hx, hts) ht = (hx, AllTasks-append_one ts t hts ht)

-- No call returned an error.
abbrev pub NoneFailed : List Processed → Type 0
NoneFailed [] = Unit
NoneFailed (p ∷ ps) = (p.failed ≡ none) × NoneFailed ps

abbrev pub with_sent : Option TaskSendInvoice → List TaskSendInvoice → List TaskSendInvoice
with_sent none ts = ts
with_sent (some t) ts = t ∷ ts

-- The invoices that were sent, in order.
abbrev pub invoices : List Processed → List TaskSendInvoice
invoices [] = []
invoices (p ∷ ps) = with_sent p.sent (invoices ps)

abbrev pub AllFair : List ℕ → Type 0
AllFair [] = Unit
AllFair (r ∷ rs) = (ltb r 2 ≡ false) × AllFair rs

module _ (Q : Queues) where
  -- Calls one after another, each with its random number.
  unfoldable pub process_all : List ℕ → Q.Store → List Processed × Q.Store
  process_all [] s = ([], s)
  process_all (roll ∷ rolls) s =
      let (p, s1) = process_task_invoice Q roll s in
      let (ps, s2) = process_all rolls s1 in (p ∷ ps, s2)

module _ (Q : Queues) (L : IsQueues Q) where
  -- On an empty queue a call returns an error, if it returns.
  process-empty :
      (roll : ℕ) (s : Q.Store)
      → L.items s ≡ []
      → (process_task_invoice Q roll s).0.failed ≡ none
      → ⊥
  unfolding process_task_invoice
  process-empty roll s empty fine = elim (Result-cases (Q.blpop queue_invoice s).0) [
    | inl (d, popped) ↦ absurd (ground (arith, L.pop-ok d s popped, empty))
    | inr (e, failed) ↦ absurd (ground (arith, failed, fine))
  ]

  -- However the random numbers fall: if no call returns an error, the invoices sent and the tasks
  -- left in the queue are together the tasks that were there, none lost and none twice.
  pub process_all-Perm :
      (rolls : List ℕ) (ts : List TaskSendInvoice) (s : Q.Store)
      → AllTasks ts
      → L.items s ≡ payloads ts
      → let (ps, s') = process_all Q rolls s in
        NoneFailed ps
        → (left : List TaskSendInvoice) × (L.items s' ≡ payloads left)
          × Perm (invoices ps ++ left) ts
  unfolding process_all
  process_all-Perm [] ts s range whole fine = (ts, whole, Perm.refl ts)
  process_all-Perm (roll ∷ rolls) [] s range whole (fine, fines) =
      absurd (process-empty roll s whole fine)
  process_all-Perm (roll ∷ rolls) (t ∷ ts) s (range, ranges) whole (fine, fines) =
      let s1 = (process_task_invoice Q roll s).1 in
      elim (process_task_invoice_lem Q L roll t (payloads ts) s range whole) [
        | inl (_, sent, rest, _) ↦
            let (left, items, perm) = process_all-Perm rolls ts s1 ranges rest fines in
            (left, items, rw sent (Perm.cons t perm))
        | inr (inl (_, none_sent, moved, _)) ↦
            let (left, items, perm) =
              process_all-Perm rolls (ts ++ t ∷ []) s1 (AllTasks-append_one ts t ranges range)
                (moved ∙ payloads-append_one ts t) fines in
            (left, items, rw none_sent (Perm.trans perm (perm_append_singleton t ts)))
        | inr (inr (e, failed, _)) ↦ absurd (ground (arith, fine, failed))
      ]

  -- If besides each random number is at least 2, as many calls as there are tasks send the invoice
  -- of each task, in the order of the queue, and empty it.
  pub process_all_drains :
      (rolls : List ℕ) (ts : List TaskSendInvoice) (s : Q.Store)
      → AllTasks ts
      → L.items s ≡ payloads ts
      → AllFair rolls
      → length rolls ≡ length ts
      → let (ps, s') = process_all Q rolls s in
        NoneFailed ps → (invoices ps ≡ ts) × (L.items s' ≡ [])
  unfolding process_all
  process_all_drains [] [] s range whole fair count fine = (refl, whole)
  process_all_drains [] (t ∷ ts) s range whole fair count fine = absurd (omega (arith, count))
  process_all_drains (roll ∷ rolls) [] s range whole fair count fine = absurd (omega (arith, count))
  process_all_drains (roll ∷ rolls) (t ∷ ts) s (range, ranges) whole (fair, fairs) count
        (fine, fines) =
      let s1 = (process_task_invoice Q roll s).1 in
      elim (process_task_invoice_lem Q L roll t (payloads ts) s range whole) [
        | inl (_, sent, rest, _) ↦
            let (order, empty) =
              process_all_drains rolls ts s1 ranges rest fairs (omega (arith, count)) fines in
            (rw sent (ap (λ us. t ∷ us) order), empty)
        | inr (inl (_, _, _, unlucky)) ↦ absurd (ground (arith, fair, unlucky))
        | inr (inr (e, failed, _)) ↦ absurd (ground (arith, fine, failed))
      ]
