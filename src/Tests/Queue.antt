-- ===== src/Tests/Queue.antt =====
-- Invoice tasks: in the worker, and in a queue that is a value.
use belajar_backend_go_v.Base.{◌≡◌, refl, List, [], ◌∷◌, ◌++◌, ℕ, pos, arith}
use belajar_backend_go_v.Json.{json}
use belajar_backend_go_v.Models.{TaskSendInvoice}
use belajar_backend_go_v.Models.Codec.{encode_task, decode_task}
use belajar_backend_go_v.Models.RoundTrip.{IsTask}
use belajar_backend_go_v.Worker.Consumer.{ConsumerMessage, consume_claim}
use belajar_backend_go_v.Worker.Consumer.Invoices.{consume_claim-AllInvoices}
use mathlib.Core.List.{Perm}
use belajar_backend_go_v.Json.{unmarshal, fits, decode_int, decode_string}
use belajar_backend_go_v.Worker.Processor.{process_task_invoice}
use belajar_backend_go_v.Worker.Processor.Queue.{
  AllTasks, NoneFailed, payloads, invoices, process_all, process_all-Perm,
}
use belajar_backend_go_v.Tests.Fixtures.{index_map, one_list, one_list-IsQueues}
use belajar_backend_go_v.Tests.Worker.{new_worker}

abbrev pen_task : TaskSendInvoice
pen_task = record {
  user_id = pos 7;
  email = "";
  product_id = pos 1;
  quantity = pos 2;
  total_price = pos 6;
}

pen_task-IsTask : IsTask pen_task
pen_task-IsTask = record {
  user_id = omega arith;
  product_id = omega arith;
  quantity = omega arith;
  total_price = omega arith;
}

abbrev invoice_messages : List ConsumerMessage
invoice_messages =
    record { topic = "checkout-events"; offset = 3; value = json (encode_task pen_task) } ∷ []

consume_claim-AllInvoices_example :
    consume_claim index_map "now" invoice_messages new_worker
    ≡ record new_worker { marked = 3 ∷ [] }
consume_claim-AllInvoices_example =
    consume_claim-AllInvoices index_map "now" invoice_messages new_worker
      (record { topic = refl; task = pen_task; range = pen_task-IsTask; value = refl }, tt)

abbrev two_tasks : List TaskSendInvoice
two_tasks = pen_task ∷ record pen_task { quantity = pos 1 } ∷ []

two_tasks-AllTasks : AllTasks two_tasks
two_tasks-AllTasks = (
  pen_task-IsTask,
  (
    record {
      user_id = omega arith;
      product_id = omega arith;
      quantity = omega arith;
      total_price = omega arith;
    },
    tt,
  ),
)

-- The first task is moved to the end once.
abbrev rolls : List ℕ
rolls = 1 ∷ 5 ∷ []

rolls_fine : NoneFailed (process_all one_list rolls (payloads two_tasks)).0
unfolding process_all process_task_invoice unmarshal decode_task encode_task fits decode_int
    decode_string
rolls_fine = (refl, (refl, tt))

process_all-Perm_example :
    let (ps, ds) = process_all one_list rolls (payloads two_tasks) in
    (left : List TaskSendInvoice) × (ds ≡ payloads left) × Perm (invoices ps ++ left) two_tasks
unfolding one_list-IsQueues
process_all-Perm_example =
    process_all-Perm one_list one_list-IsQueues rolls two_tasks (payloads two_tasks)
      two_tasks-AllTasks refl rolls_fine
