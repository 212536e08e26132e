-- ===== src/Router/Sessions.antt =====
-- What a conversation sees of the table of crates/assistant-router/src/sticky.rs.
use assistant_platform.Base.{
  if◌then◌else◌, ◌==◌, Bool-cases, All, any, update, leb_ℤ, any-find, ℕ, String, ◌≡◌, refl, ap, ◌∙◌,
  inl, inr, Bool, true, false, ◌&&◌, Option, none, some, List, [], ◌∷◌, arith, str_eq,
}
use assistant_platform.Router.Sticky.{
  StickyTable, EpochSecs, StickyEngagement, is_key, open_sticky, is_unexpired, is_live,
  lookup_active_sticky, has_active_sticky, has_run_out, expire_sticky, reset_sticky,
}

-- The calls that write the table.
pub data StickyCall : Type 0 where
  opens : ℕ → String → Option String → Option String → Option EpochSecs → StickyCall
  expires : EpochSecs → StickyCall
  resets : ℕ → String → String → StickyCall

abbrev pub after : StickyTable → StickyCall → StickyTable
after rows (opens group key root scope t) = open_sticky rows group key root scope t
after rows (expires now) = (expire_sticky rows now).1
after rows (resets group key reason) = (reset_sticky rows group key reason).1

abbrev pub run : StickyTable → List StickyCall → StickyTable
run rows [] = rows
run rows (c ∷ calls) = run (after rows c) calls

-- What one conversation sees: no session, or one with its expiry, if it has one.
abbrev pub Session : Type 0
Session = Option (Option EpochSecs)

abbrev pub swept : EpochSecs → Session → Session
swept now none = none
swept now (some none) = some none
swept now (some (some t)) = if leb_ℤ t now then none else some (some t)

abbrev pub sees : ℕ → String → Session → StickyCall → Session
sees group key s (opens g k root scope t) = if g == group && str_eq k key then some t else s
sees group key s (expires now) = swept now s
sees group key s (resets g k reason) = if g == group && str_eq k key then none else s

abbrev pub sees_all : ℕ → String → Session → List StickyCall → Session
sees_all group key s [] = s
sees_all group key s (c ∷ calls) = sees_all group key (sees group key s c) calls

abbrev pub is_alive : EpochSecs → Session → Bool
is_alive now none = false
is_alive now (some t) = is_unexpired now t

-- The rows of the conversation say what it sees.
abbrev pub Shows : Session → StickyEngagement → Type 0
Shows none row = row.active ≡ false
Shows (some t) row = (row.active ≡ true) × (row.expires_at ≡ t)

abbrev pub IsShown : ℕ → String → Session → StickyEngagement → Type 0
IsShown group key s row = is_key group key row ≡ true → Shows s row

abbrev pub HasRow : ℕ → String → Session → StickyTable → Type 0
HasRow group key none rows = Unit
HasRow group key (some t) rows = any (is_key group key) rows ≡ true

abbrev pub Represents : ℕ → String → Session → StickyTable → Type 0
Represents group key s rows = All (IsShown group key s) rows × HasRow group key s rows

pub live_row :
    (group : ℕ) (key : String) (now : EpochSecs) (t : Option EpochSecs) (rows : StickyTable)
    → All (IsShown group key (some t)) rows
    → any (is_live group key now) rows ≡ (any (is_key group key) rows && is_unexpired now t)
live_row group key now t [] h = refl
live_row group key now t (row ∷ rows) h = elim (Bool-cases (is_key group key row)) [
  | inl k ↦
      let shown = h.0 k in
      ground (arith, live_row group key now t rows h.1, k, shown.0, ap (is_unexpired now) shown.1)
  | inr k ↦ ground (arith, live_row group key now t rows h.1, k)
]

pub no_live_row :
    (group : ℕ) (key : String) (now : EpochSecs) (rows : StickyTable)
    → All (IsShown group key none) rows
    → any (is_live group key now) rows ≡ false
no_live_row group key now [] h = refl
no_live_row group key now (row ∷ rows) h = elim (Bool-cases (is_key group key row)) [
  | inl k ↦ ground (arith, no_live_row group key now rows h.1, h.0 k)
  | inr k ↦ ground (arith, no_live_row group key now rows h.1, k)
]

pub Represents-alive :
    (group : ℕ) (key : String) (now : EpochSecs) (s : Session) (rows : StickyTable)
    → Represents group key s rows
    → has_active_sticky rows group key now ≡ is_alive now s
unfolding has_active_sticky lookup_active_sticky
Represents-alive group key now none rows h =
    any-find (is_live group key now) rows ∙ no_live_row group key now rows h.0
Represents-alive group key now (some t) rows h =
    any-find (is_live group key now) rows ∙ live_row group key now t rows h.0 ∙ ground (arith, h.1)

pub All-update_to :
    (P Q : StickyEngagement → Type 0) (q : StickyEngagement → Bool)
    → (f : StickyEngagement → StickyEngagement) (rows : StickyTable)
    → ((x : StickyEngagement) → P x → Q (if q x then f x else x))
    → All P rows
    → All Q (update q f rows)
All-update_to P Q q f [] k h = tt
All-update_to P Q q f (x ∷ rows) k h = (k x h.0, All-update_to P Q q f rows k h.1)

pub any-update_where :
    (p q : StickyEngagement → Bool) (f : StickyEngagement → StickyEngagement) (rows : StickyTable)
    → ((x : StickyEngagement) → q x ≡ true → p (f x) ≡ p x)
    → any p (update q f rows) ≡ any p rows
any-update_where p q f [] k = refl
any-update_where p q f (x ∷ rows) k = ground (arith, k x, any-update_where p q f rows k)

pub HasRow-same :
    (group : ℕ) (key : String) (s : Session) (rows rows' : StickyTable)
    → any (is_key group key) rows' ≡ any (is_key group key) rows
    → HasRow group key s rows
    → HasRow group key s rows'
HasRow-same group key none rows rows' e h = tt
HasRow-same group key (some t) rows rows' e h = e ∙ h

pub HasRow-swept :
    (group : ℕ) (key : String) (now : EpochSecs) (s : Session) (rows : StickyTable)
    → HasRow group key s rows
    → HasRow group key (swept now s) rows
HasRow-swept group key now none rows h = tt
HasRow-swept group key now (some none) rows h = h
HasRow-swept group key now (some (some t)) rows h = at (leb_ℤ t now)
  where
    at : (b : Bool) → HasRow group key (if b then none else some (some t)) rows
    at true = tt
    at false = h

abbrev pub is_over : EpochSecs → Session → Bool
is_over now none = false
is_over now (some none) = false
is_over now (some (some t)) = leb_ℤ t now

pub swept_over : (now : EpochSecs) (s : Session) → is_over now s ≡ true → swept now s ≡ none
swept_over now none h = absurd (cc)
swept_over now (some none) h = absurd (cc)
swept_over now (some (some t)) h = rw h refl

pub swept_kept : (now : EpochSecs) (s : Session) → is_over now s ≡ false → swept now s ≡ s
swept_kept now none h = refl
swept_kept now (some none) h = refl
swept_kept now (some (some t)) h = rw h refl

pub run_out-over :
    (now : EpochSecs) (s : Session) (row : StickyEngagement)
    → Shows s row
    → has_run_out now row ≡ is_over now s
run_out-over now none row h = rw h refl
run_out-over now (some none) row h = rw (h.0, h.1) refl
run_out-over now (some (some t)) row h = rw (h.0, h.1) refl
