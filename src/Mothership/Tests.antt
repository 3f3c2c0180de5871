-- ===== src/Mothership/Tests.antt =====
-- A pool of one page, at 50, that grows by the struct at 60; its items are 32 bytes long.
use stm32app.Base.{ℕ, ◌≡◌, refl, some, [], ◌∷◌, arith, ◌==◌, if◌then◌else◌}
use stm32app.Memory.Arena.{arena}
use stm32app.Signal.{Signal}
use stm32app.Buffer.{default_platform}
use stm32app.Store.{Store, System, zero_buffer, pool_dispose, get_last_page}
use stm32app.Store.Pages.{Links}
use stm32app.Mothership.{add_page}
use stm32app.Mothership.Growth.{IsFilled, add_page_lem}

abbrev system : System
system = record {
  platform = default_platform arena;
  alloc = λ owner s. (70, s);
  dispose = pool_dispose;
}

abbrev store : Store
store = record {
  memory = record { byte = λ a. 0; blocks = [] };
  buffers = λ p.
      if p == 50
      then record zero_buffer { owner = 7; next = 50; allocated_size = 320; size = 320 }
      else zero_buffer;
}

abbrev malloc : Store → ℕ × Store
malloc s = (60, s)

add_page_lem_example :
    (signal : Signal) × (t' : Store) × (add_page system malloc 7 50 50 32 store ≡ some (signal, t'))
    × Links t' 50 50 (60 ∷ [])
    × (get_last_page 50 t' ≡ some 60)
    × IsFilled system malloc 7 60 320 (signal, t')
add_page_lem_example =
    add_page_lem system malloc 7 50 32 60 [] store store refl (omega arith) (omega arith) refl
      (λ q. refl) (omega arith) (omega arith) tt
