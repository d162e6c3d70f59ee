-- ===== src/Waiter.antt =====
-- discord/ext/voice_recv/utils.py, `MultiDataEvent`. An item is a number, the identity of an object.
use discord_ext_voice_recv.Base.{ℕ, Bool, true, false, not, List, [], ◌∷◌, ◌++◌, is_empty}
use discord_ext_voice_recv.Base.Dict.{remove}

pub record Waiter : Type 0 where
  pub items : List ℕ
  pub ready : Bool

abbrev pub empty : Waiter
empty = record { items = []; ready = false }

unfoldable pub check_ready : Waiter → Waiter
check_ready w = record w { ready = not (is_empty w.items) }

unfoldable pub notify : Waiter → Waiter
unfolding check_ready
notify w = check_ready (record w { ready = true })

-- `wait`: the flag that it waits for.
unfoldable pub wait : Waiter → Waiter × Bool
unfolding check_ready
wait w = let w' = check_ready w in (w', w'.ready)

unfoldable pub register : Waiter → ℕ → Waiter
register w item = record { items = w.items ++ item ∷ []; ready = true }

unfoldable pub unregister : Waiter → ℕ → Waiter
unfolding check_ready
unregister w item = check_ready (record w { items = remove item w.items })

unfoldable pub clear : Waiter → Waiter
clear w = record { items = []; ready = false }
