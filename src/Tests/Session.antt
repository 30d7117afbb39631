-- ===== src/Tests/Session.antt =====
-- The life of a stub, the test program's synchronous test, and a race, at concrete inputs.
use dcom.Base.{ℕ, ◌≡◌, true, ◌∷◌, [], some, codes, arith, pos, ok, err, ◌+ℤ◌, ◌>>=◌, dangling}
use dcom.Calculator.{calculator}
use dcom.Remote.Texts.{greeting}
use dcom.ClientProgram.CalculatorTest.{calls_transcript, calculator_test, calculator_test-direct}
use dcom.ClientStub.{new_stub, add, destroy_stub}
use dcom.Connection.{direct}
use dcom.Constants.{error_success}
use dcom.Marshaller.{Marshaller}
use dcom.ObjectManager.Lifetime.{delete_request}
use dcom.ObjectManager.Race.{find_object, invoke_found, deleted_in_between}
use dcom.ObjectManager.{ObjectManager, load, contains, process_request}
use dcom.Protocol.{message}
use dcom.Remote.Primitives.{grown}
use dcom.Remote.Session.{fresh_stub, calculator_session}
use dcom.ServerStub.{custom, invoke}
use dcom.Tests.Machine.{windows, allocator}
use dcom.Tests.Objects.{shop, shop_known, shop_live, allocated}

-- A second calculator beside the one of the shop.
calculator_session_example :
    (o' o'' : ObjectManager) × (new_stub windows (direct windows allocator) true shop
      ≡ ok (error_success, some (fresh_stub windows allocator shop 4112 allocated true), o'))
    × (add windows
          (direct windows allocator)
          (fresh_stub windows allocator shop 4112 allocated true)
          (pos 3)
          (pos 4)
          (pos 0)
          o'
        ≡ ok (
          error_success,
          pos 3 +ℤ pos 4,
          fresh_stub windows allocator shop 4112 allocated true,
          o',
        ))
    × (destroy_stub windows
          (direct windows allocator)
          (fresh_stub windows allocator shop 4112 allocated true)
          o'
        ≡ ok o'')
    × ((c : ℕ) → load c o''.heap ≡ load c shop.heap)
    × (contains 4112 o''.all_objects ≡ true)
unfolding ◌+ℤ◌
calculator_session_example =
    calculator_session windows allocator shop 4112 allocated true (pos 3) (pos 4) (pos 0)
      (omega arith) (omega arith) (omega arith) (omega arith)

abbrev call : Marshaller
call = message windows (pos 0) 4096 (pos 0) (codes "3" ∷ codes "4" ∷ codes "0" ∷ [])

deleted_in_between_example :
    (find_object shop 4096 ≡ true)
    × (invoke_found shop 4096 call ≡ invoke (custom (some calculator)) call)
    × ((do
      (o', reply) ← process_request windows allocator shop (delete_request windows (pos 0) 4096)
      invoke_found o' 4096 call)
        ≡ err dangling)
deleted_in_between_example =
    deleted_in_between windows allocator shop 4096 (custom (some calculator)) (pos 0) call
      (λ e. absurd (omega arith)) (omega arith) shop_known shop_live

calls_directly :
    calculator_test windows (direct windows allocator) (λ fault. codes "library") true shop
    ≡ ok (
      calls_transcript,
      some (
        greeting,
        fresh_stub windows allocator shop 4112 allocated true,
        grown shop 4112 (custom (some calculator)),
      ),
    )
calls_directly =
    calculator_test-direct windows allocator shop 4112 (λ fault. codes "library") true allocated
