-- ===== src/Session/Refinement.antt =====
-- The list of wanted objects implements a partial map from TOIs to parameters.
use route.Base.{
  ℕ, ◌≡◌, ◌≢◌, refl, arith, sym, ◌∙◌, Option, none, some, List, [], ◌∷◌, All, ◌==◌, if◌then◌else◌,
  Bool-cases, inl, inr, ==_iff,
}
use route.Session.{
  Oti, WantedObj, get_wanted_object, set_wanted_object, remove_wanted_object, update_wanted_object,
}

-- The abstract view: at most one set of parameters for a TOI.
abbrev pub Wanted : Type 0
Wanted = ℕ → Option Oti

abbrev pub nothing : Wanted
nothing toi = none

abbrev pub kept : Option Oti → Oti → Option Oti
kept none oti = some oti
kept (some old) oti = some old

abbrev pub replaced : Option Oti → Oti → Option Oti
replaced none oti = none
replaced (some old) oti = some oti

abbrev pub at : Wanted → ℕ → Option Oti → Wanted
at w toi o t = if t == toi then o else w t

-- The parameters that the list has for a TOI.
abbrev pub oti_of : Option WantedObj → Option Oti
oti_of none = none
oti_of (some w) = some w.oti

abbrev pub view : List WantedObj → Wanted
view ws toi = oti_of (get_wanted_object ws toi)

-- No TOI stands twice.
abbrev pub NoDuplicate : List WantedObj → Type 0
NoDuplicate [] = Unit
NoDuplicate (w ∷ ws) = All (λ v. v.toi ≢ w.toi) ws × NoDuplicate ws

absent : (ws : List WantedObj) (toi : ℕ) → All (λ v. v.toi ≢ toi) ws → view ws toi ≡ none
unfolding get_wanted_object
absent [] toi a = refl
absent (w ∷ ws) toi a = ground (arith, absent ws toi a.1)

set-All :
    (ws : List WantedObj) (n toi : ℕ) (oti : Oti)
    → toi ≢ n
    → All (λ v. v.toi ≢ n) ws
    → All (λ v. v.toi ≢ n) (set_wanted_object ws toi oti)
unfolding set_wanted_object
set-All [] n toi oti ne a = (ne, tt)
set-All (w ∷ ws) n toi oti ne a = ground (arith, set-All ws n toi oti ne a.1)

remove-All :
    (ws : List WantedObj) (n toi : ℕ)
    → All (λ v. v.toi ≢ n) ws
    → All (λ v. v.toi ≢ n) (remove_wanted_object ws toi)
unfolding remove_wanted_object
remove-All [] n toi a = tt
remove-All (w ∷ ws) n toi a = ground (arith, remove-All ws n toi a.1)

update-All :
    (ws : List WantedObj) (n toi : ℕ) (oti : Oti)
    → All (λ v. v.toi ≢ n) ws
    → All (λ v. v.toi ≢ n) (update_wanted_object ws toi oti)
unfolding update_wanted_object
update-All [] n toi oti a = tt
update-All (w ∷ ws) n toi oti a = ground (arith, update-All ws n toi oti a.1)

set-NoDuplicate :
    (ws : List WantedObj) (toi : ℕ) (oti : Oti)
    → NoDuplicate ws
    → NoDuplicate (set_wanted_object ws toi oti)
unfolding set_wanted_object
set-NoDuplicate [] toi oti v = (tt, tt)
set-NoDuplicate (w ∷ ws) toi oti v = elim (Bool-cases (w.toi == toi)) [
  | inl e ↦ rw e v
  | inr e ↦ rw e (set-All ws w.toi toi oti (ground arith) v.0, set-NoDuplicate ws toi oti v.1)
]

remove-NoDuplicate :
    (ws : List WantedObj) (toi : ℕ) → NoDuplicate ws → NoDuplicate (remove_wanted_object ws toi)
unfolding remove_wanted_object
remove-NoDuplicate [] toi v = tt
remove-NoDuplicate (w ∷ ws) toi v = elim (Bool-cases (w.toi == toi)) [
  | inl e ↦ rw e v.1
  | inr e ↦ rw e (remove-All ws w.toi toi v.0, remove-NoDuplicate ws toi v.1)
]

update-NoDuplicate :
    (ws : List WantedObj) (toi : ℕ) (oti : Oti)
    → NoDuplicate ws
    → NoDuplicate (update_wanted_object ws toi oti)
unfolding update_wanted_object
update-NoDuplicate [] toi oti v = tt
update-NoDuplicate (w ∷ ws) toi oti v = elim (Bool-cases (w.toi == toi)) [
  | inl e ↦ rw (e, (==_iff toi w.toi).0 (ground arith)) v
  | inr e ↦ rw e (update-All ws w.toi toi oti v.0, update-NoDuplicate ws toi oti v.1)
]

view-set :
    (ws : List WantedObj) (toi : ℕ) (oti : Oti) (t : ℕ)
    → view (set_wanted_object ws toi oti) t ≡ at (view ws) toi (kept (view ws toi) oti) t
unfolding get_wanted_object set_wanted_object
view-set [] toi oti t = ground arith
view-set (w ∷ ws) toi oti t = ground (arith, view-set ws toi oti t)

view-remove :
    (ws : List WantedObj) (toi t : ℕ)
    → NoDuplicate ws
    → view (remove_wanted_object ws toi) t ≡ at (view ws) toi none t
unfolding get_wanted_object remove_wanted_object
view-remove [] toi t v = ground arith
view-remove (w ∷ ws) toi t v = elim (Bool-cases (w.toi == toi)) [
  | inl e ↦
      let gone = absent ws w.toi v.0 in
      rw e (elim (Bool-cases (t == toi)) [
        | inl f ↦ rw (f, (==_iff t toi).0 f, sym ((==_iff w.toi toi).0 e), gone) refl
        | inr f ↦ ground arith
      ])
  | inr e ↦ rw e (ground (arith, view-remove ws toi t v.1))
]

view-update :
    (ws : List WantedObj) (toi : ℕ) (oti : Oti) (t : ℕ)
    → view (update_wanted_object ws toi oti) t ≡ at (view ws) toi (replaced (view ws toi) oti) t
unfolding get_wanted_object update_wanted_object
view-update [] toi oti t = ground arith
view-update (w ∷ ws) toi oti t = ground (arith, view-update ws toi oti t)

-- The calls that change the list.
pub data Call : Type 0 where
  sets updates : ℕ → Oti → Call
  removes : ℕ → Call

abbrev pub run : List Call → List WantedObj → List WantedObj
run [] ws = ws
run (sets toi oti ∷ cs) ws = run cs (set_wanted_object ws toi oti)
run (updates toi oti ∷ cs) ws = run cs (update_wanted_object ws toi oti)
run (removes toi ∷ cs) ws = run cs (remove_wanted_object ws toi)

-- The same calls on the map: the first parameters of an object stay until they are updated.
abbrev pub run_map : List Call → Wanted → Wanted
run_map [] w = w
run_map (sets toi oti ∷ cs) w = run_map cs (at w toi (kept (w toi) oti))
run_map (updates toi oti ∷ cs) w = run_map cs (at w toi (replaced (w toi) oti))
run_map (removes toi ∷ cs) w = run_map cs (at w toi none)

-- Maps that agree on every TOI are run to maps that agree.
run_map-agree :
    (cs : List Call) (w w' : Wanted)
    → ((t : ℕ) → w t ≡ w' t)
    → (t : ℕ) → run_map cs w t ≡ run_map cs w' t
run_map-agree [] w w' h t = h t
run_map-agree (sets toi oti ∷ cs) w w' h t = run_map-agree cs _ _ (λ s. rw (h toi, h s) refl) t
run_map-agree (updates toi oti ∷ cs) w w' h t = run_map-agree cs _ _ (λ s. rw (h toi, h s) refl) t
run_map-agree (removes toi ∷ cs) w w' h t = run_map-agree cs _ _ (λ s. rw (h s) refl) t

run-view :
    (cs : List Call) (ws : List WantedObj)
    → NoDuplicate ws
    → (t : ℕ) → view (run cs ws) t ≡ run_map cs (view ws) t
run-view [] ws v t = refl
run-view (sets toi oti ∷ cs) ws v t =
    run-view cs _ (set-NoDuplicate ws toi oti v) t ∙ run_map-agree cs _ _ (view-set ws toi oti) t
run-view (updates toi oti ∷ cs) ws v t =
    run-view cs _ (update-NoDuplicate ws toi oti v) t
    ∙ run_map-agree cs _ _ (view-update ws toi oti) t
run-view (removes toi ∷ cs) ws v t =
    run-view cs _ (remove-NoDuplicate ws toi v) t
    ∙ run_map-agree cs _ _ (λ s. view-remove ws toi s v) t

-- After any sequence of calls that set, update and remove wanted objects of a new session,
-- `get_wanted_object` answers as the map on which the same calls are run.
pub run-refines-run_map :
    (cs : List Call) (toi : ℕ) → oti_of (get_wanted_object (run cs []) toi) ≡ run_map cs nothing toi
unfolding get_wanted_object
run-refines-run_map cs toi = run-view cs [] tt toi
