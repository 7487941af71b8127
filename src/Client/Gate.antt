-- ===== src/Client/Gate.antt =====
-- The admission controller that a client has by default: inflightGate of sdk/go/client.go, a channel
-- of which each operation in flight holds a place.
use resilix.Prelude.{
  ℕ, zero, suc, ◌≤◌, ◌≡◌, ltb, Bool, true, false, ◌&&◌, ◌||◌, Option, none, some, arith,
  if◌then◌else◌,
}
use resilix.Errors.{Error, canceled, backpressure}

-- The context of a call: not done, done since it was canceled, or done for another reason.
pub data Context : Type 0 where
  live_context : Context
  canceled_context : Context
  expired_context : Context

unfoldable pub is_live : Context → Bool
is_live live_context = true
is_live _ = false

-- The case of the select for a context that is done; `none` is a call that waits.
unfoldable pub refuse : Context → ℕ → Option (Option Error × ℕ)
refuse live_context n = none
refuse canceled_context n = some (some canceled, n)
refuse expired_context n = some (some backpressure, n)

-- Acquire with `n` values in a channel of the capacity `limit`. Where both cases of the select are
-- ready Go picks one: `pick` is whether it takes the place.
unfoldable pub acquire_slot : ℕ → Context → Bool → ℕ → Option (Option Error × ℕ)
unfolding is_live refuse
acquire_slot limit ctx pick n =
    if ltb n limit && (pick || is_live ctx) then some (none, suc n) else refuse ctx n

-- The ReleaseFunc, which waits at an empty channel.
unfoldable pub release_slot : ℕ → Option ℕ
release_slot zero = none
release_slot (suc n) = some n

-- The runs of a gate from its making on, over the calls of all goroutines: the values in the
-- channel, and the calls that were admitted and have not released.
pub data Run (limit : ℕ) : ℕ → ℕ → Type 0 where
  made : Run limit 0 0
  admitted :
      (n m held : ℕ) (ctx : Context) (pick : Bool)
      → Run limit n held
      → acquire_slot limit ctx pick n ≡ some (none, m)
      → Run limit m (suc held)
  refused :
      (n m held : ℕ) (ctx : Context) (pick : Bool) (e : Error)
      → Run limit n held
      → acquire_slot limit ctx pick n ≡ some (some e, m)
      → Run limit m held
  released : (n m held : ℕ) → Run limit n (suc held) → release_slot n ≡ some m → Run limit m held

acquire_slot-admits :
    (limit n m : ℕ) (ctx : Context) (pick : Bool)
    → acquire_slot limit ctx pick n ≡ some (none, m)
    → (suc n ≤ limit) × (m ≡ suc n)
unfolding acquire_slot is_live refuse
acquire_slot-admits limit n m live_context pick h = ground (arith, h)
acquire_slot-admits limit n m canceled_context pick h = ground (arith, h)
acquire_slot-admits limit n m expired_context pick h = ground (arith, h)

acquire_slot-refuses :
    (limit n m : ℕ) (ctx : Context) (pick : Bool) (e : Error)
    → acquire_slot limit ctx pick n ≡ some (some e, m)
    → m ≡ n
unfolding acquire_slot is_live refuse
acquire_slot-refuses limit n m live_context pick e h = ground (arith, h)
acquire_slot-refuses limit n m canceled_context pick e h = ground (arith, h)
acquire_slot-refuses limit n m expired_context pick e h = ground (arith, h)

release_slot-takes : (n m : ℕ) → release_slot n ≡ some m → n ≡ suc m
unfolding release_slot
release_slot-takes zero m h = absurd (ground (arith, h))
release_slot-takes (suc n) m h = ground (arith, h)

-- In every run of the gate, over any number of goroutines, each operation in flight holds one place
-- of the channel, so that its release does not wait; and there are never more of them than the
-- limit.
pub run-bounded : (limit n held : ℕ) → Run limit n held → (n ≡ held) × (n ≤ limit)
run-bounded limit _ _ made = (omega arith, omega arith)
run-bounded limit _ _ (admitted n m held ctx pick r h) =
    let (same, fits) = run-bounded limit n held r in
    let (room, next) = acquire_slot-admits limit n m ctx pick h in
    (omega (arith, same, next), omega (arith, room, next))
run-bounded limit _ _ (refused n m held ctx pick e r h) =
    let (same, fits) = run-bounded limit n held r in
    let kept = acquire_slot-refuses limit n m ctx pick e h in
    (omega (arith, same, kept), omega (arith, fits, kept))
run-bounded limit _ _ (released n m held r h) =
    let (same, fits) = run-bounded limit n (suc held) r in
    let taken = release_slot-takes n m h in (omega (arith, same, taken), omega (arith, fits, taken))
