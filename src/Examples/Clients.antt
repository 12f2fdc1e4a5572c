-- ===== src/Examples/Clients.antt =====
-- The theorems on clients.
use de_co_f.Base.{ℕ, ◌≡◌, ◌⊎◌, refl, some, List, [], ◌∷◌}
use de_co_f.Access.{set_parameter, get_parameter, signal_event}
use de_co_f.Access.Authorization.{
  MayWrite, MayRead, MaySignal, Performed, Refused, set_parameter_lem, get_parameter_lem,
  signal_event_lem,
}
use de_co_f.Access.Browse.{Visits, browse-visible}
use de_co_f.Access.Calls.{write, read, signal, serve_all, serve_all-readonly}
use de_co_f.Examples.Data.{tree, device, word, client, guest, state}

set_parameter_lem_example :
    (MayWrite client tree 1
      × Performed client state
          (device.write 1 word)
          (set_parameter device client tree (some 1) word state))
    ⊎ (¬ MayWrite client tree 1
        × Refused state (set_parameter device client tree (some 1) word state))
set_parameter_lem_example = set_parameter_lem device client tree 1 word state

get_parameter_lem_example :
    (MayRead guest tree 1
      × Performed guest state (device.read 1) (get_parameter device guest tree (some 1) state))
    ⊎ (¬ MayRead guest tree 1 × Refused state (get_parameter device guest tree (some 1) state))
get_parameter_lem_example = get_parameter_lem device guest tree 1 state

signal_event_lem_example :
    (MaySignal client tree 2
      × Performed client state (device.signal 2) (signal_event device client tree (some 2) state))
    ⊎ (¬ MaySignal client tree 2 × Refused state (signal_event device client tree (some 2) state))
signal_event_lem_example = signal_event_lem device client tree 2 state

serve_all-readonly_example :
    (serve_all device guest tree
      (write (some 1) word ∷ read (some 1) ∷ signal (some 2) ∷ [])
      state).device
    ≡ state.device
serve_all-readonly_example =
    serve_all-readonly device guest tree
      (write (some 1) word ∷ read (some 1) ∷ signal (some 2) ∷ []) state refl (λ a x d. refl)

browse-visible_example : (xs : List ℕ) × Visits 3 tree 2 0 xs
browse-visible_example = browse-visible 3 tree 2 0 (tt, (tt, tt))
