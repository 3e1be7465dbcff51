-- ===== src/Releases/Calls.antt =====
-- Sequences of calls of ReleaseStore (releases/adapters/persistence.py).
use blitze_cdn_cp.Prelude.{
  ℕ, List, [], ◌∷◌, Bool, true, false, not, ◌&&◌, Option, none, some, nat_eq, list_eq, Memᴰ, ◌≡◌,
  refl,
}
use blitze_cdn_cp.Releases.{
  Digest, Documents, Tables, StoreError, Answer, answers, fails, or_fail, save, save_configuration,
  prune,
}

pub of_answers : {A : Type 0} {x y : A} → answers x ≡ answers y → x ≡ y
of_answers e = cc e

pub or_fail-answers :
    {A B : Type 0} (e : StoreError) (go : A → Answer B) (o : Option A) (b : B)
    → or_fail e go o ≡ answers b
    → (a : A) × (o ≡ some a) × (go a ≡ answers b)
unfolding or_fail
or_fail-answers e go none b h = absurd (cc h)
or_fail-answers e go (some a) b h = (a, refl, h)

pub kept_by_use : (b : Bool) → not (not b && false) ≡ true
kept_by_use true = refl
kept_by_use false = refl

-- The calls that write.
pub data Call (R I B : Type 0) : Type 0 where
  saves : R → I → ℕ → Call R I B
  records : R → B → ℕ → Call R I B
  prunes : ℕ → List Digest → Call R I B

module _ {R I B : Type 0} (doc : Documents R I B) where
  -- The tables behind a call that is answered or refused.
  unfoldable pub left : Answer Tables → Tables → Tables
  left (answers db') db = db'
  left (fails e) db = db

  unfoldable pub step : Call R I B → Tables → Tables
  unfolding left
  step (saves r i now) db = left (save doc r i now db) db
  step (records r b now) db = left (save_configuration doc r b now db) db
  step (prunes keep in_use) db = (prune doc keep in_use db).1

  unfoldable pub run : List (Call R I B) → Tables → Tables
  unfolding step
  run [] db = db
  run (c ∷ cs) db = run cs (step c db)

  -- A pruning counts the release as one in use.
  unfoldable pub Spares : Digest → Call R I B → Type 0
  Spares id (saves r i now) = Unit
  Spares id (records r b now) = Unit
  Spares id (prunes keep in_use) = Memᴰ id in_use
