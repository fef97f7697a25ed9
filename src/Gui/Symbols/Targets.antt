-- ===== src/Gui/Symbols/Targets.antt =====
-- The functions that src/gui/symbols.cpp lists: the targets of the calls.
use voidwalk.Common.{
  ℕ, zero, suc, ◌==◌, if◌then◌else◌, Bool, true, false, not, ◌&&◌, ◌||◌, List, [], ◌∷◌, Option,
  none, some, ◌≡◌, refl, sym, ap, ◌∙◌, arith,
}
use voidwalk.X86.Render.Branches.{Flow}
use voidwalk.Gui.Rows.{Snapshot, snapshot_flow, snapshot_target}
use voidwalk.Gui.Symbols.{insert, add_row, is_call, next_targets, continued, scan_rows}

unfoldable pub has : ℕ → List ℕ → Bool
has x [] = false
has x (y ∷ ys) = x == y || has x ys

has-insert : (x y : ℕ) (ys : List ℕ) → has x (insert y ys) ≡ (x == y || has x ys)
unfolding has insert
has-insert x y [] = refl
has-insert x y (z ∷ ys) = ground (arith, has-insert x y ys)

or_comm : (a b : Bool) → (a || b) ≡ (b || a)
or_comm true true = refl
or_comm true false = refl
or_comm false true = refl
or_comm false false = refl

or_no : (a : Bool) → (a || false) ≡ a
or_no true = refl
or_no false = refl

some_injective {ℓ} : {A : Type ℓ} {a b : A} → ◌≡◌ {A = Option A} (some a) (some b) → a ≡ b
some_injective h = cc

-- Whether a row calls the address directly
unfoldable pub called_by : Option Flow → Option ℕ → ℕ → Bool
unfolding is_call
called_by (some flow) (some target) x = is_call flow && not (target == 0) && (x == target)
called_by _ _ x = false

-- Whether one of so many rows does
unfoldable pub called : Snapshot → ℕ → ℕ → ℕ → Bool
unfolding called_by snapshot_flow snapshot_target
called snapshot zero i x = false
called snapshot (suc left) i x =
    called_by (snapshot_flow snapshot i) (snapshot_target snapshot i) x
    || called snapshot left (suc i) x

added :
    (b : Bool) (x target : ℕ) (targets : List ℕ)
    → has x (if b then insert target targets else targets) ≡ (has x targets || b && (x == target))
added true x target targets = has-insert x target targets ∙ or_comm (x == target) (has x targets)
added false x target targets = sym (or_no (has x targets))

has-add_row :
    (flow : Flow) (target : ℕ) (targets : List ℕ) (x : ℕ)
    → has x (add_row flow target targets)
      ≡ (has x targets || is_call flow && not (target == 0) && (x == target))
unfolding add_row
has-add_row flow target targets x = added (is_call flow && not (target == 0)) x target targets

has-next_targets :
    (flow : Option Flow) (target : Option ℕ) (targets next : List ℕ) (x : ℕ)
    → next_targets flow target targets ≡ some next
    → has x next ≡ (has x targets || called_by flow target x)
unfolding next_targets called_by
has-next_targets (some flow) (some target) targets next x e =
    ap (has x) (sym (some_injective e)) ∙ has-add_row flow target targets x
has-next_targets (some flow) none targets next x e = cc
has-next_targets none target targets next x e = cc

-- A scan that was not stopped
goes_on :
    (stopped : Bool) (rest : Option (Option (List ℕ))) (found : List ℕ)
    → (if stopped then some none else rest) ≡ some (some found)
    → rest ≡ some (some found)
goes_on true rest found e = cc
goes_on false rest found e = e

continues :
    (next : Option (List ℕ)) (rest : List ℕ → Option (Option (List ℕ))) (found : List ℕ)
    → continued next rest ≡ some (some found)
    → (targets : List ℕ) × (next ≡ some targets) × (rest targets ≡ some (some found))
unfolding continued
continues none rest found e = cc
continues (some targets) rest found e = (targets, refl, e)

or_assoc : (a b c : Bool) → ((a || b) || c) ≡ (a || (b || c))
or_assoc true b c = refl
or_assoc false b c = refl

-- A scan of the rows that is not stopped lists an address exactly if it was listed before or a row
-- calls it directly.
pub has-scan_rows :
    (stop : ℕ → Bool) (snapshot : Snapshot) (left i : ℕ) (targets found : List ℕ) (x : ℕ)
    → scan_rows stop snapshot left i targets ≡ some (some found)
    → has x found ≡ (has x targets || called snapshot left i x)
unfolding scan_rows called
has-scan_rows stop snapshot zero i targets found x e =
    let same : targets ≡ found = cc in ap (has x) (sym same) ∙ sym (or_no (has x targets))
has-scan_rows stop snapshot (suc left) i targets found x e =
    let flow = snapshot_flow snapshot i in
    let target = snapshot_target snapshot i in
    let (next, now, later) =
      continues (next_targets flow target targets) _ found (goes_on _ _ found e) in
    has-scan_rows stop snapshot left (suc i) next found x later
    ∙ ap (λ b. b || called snapshot left (suc i) x)
        (has-next_targets flow target targets next x now)
    ∙ or_assoc (has x targets) (called_by flow target x) (called snapshot left (suc i) x)
