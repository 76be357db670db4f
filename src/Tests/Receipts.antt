-- ===== src/Tests/Receipts.antt =====
-- A receipt of the order of the seed database.
use sage_store.Prelude.{refl, any}
use sage_store.Tests.Seed
use sage_store.Prelude.Decimal.{all_digits, to_string, decimal}
use sage_store.Memory.{affinity, integer_text, memory_repositories}
use sage_store.Memory.Correct.{views, memory-IsDatabase}
use sage_store.Tables.Settled.{Settled}
use sage_store.Purchase.Receipt.{receive_order}
use sage_store.Purchase.Booking.Receipts.{IsReceipt, receive_order-IsReceipt}
use sage_store.Tests.Seed.{seed, seed_tables, receipt}
use sage_store.Tests.Stock.{seed-IsStocked}

receive_order-IsReceipt_example :
    Settled views
      (IsReceipt affinity receipt seed_tables)
      seed
      (receive_order memory_repositories receipt seed).0
      (receive_order memory_repositories receipt seed).1
unfolding any integer_text all_digits to_string decimal
receive_order-IsReceipt_example =
    receive_order-IsReceipt memory_repositories memory-IsDatabase seed seed-IsStocked.stocks refl
      receipt
