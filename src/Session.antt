-- ===== src/Session.antt =====
-- The lists that the receiver keeps of a session: alclib/alc_session.c and alc_session.h. The
-- doubly linked list of wanted objects is the list of its elements from the first on; a call holds
-- the lock of the session, and allocations succeed.
pub mod Refinement
pub mod Received
mod Tests
use route.Base.{ℕ, Bool, true, false, Option, none, some, List, [], ◌∷◌, ◌==◌, if◌then◌else◌}

-- The parameters of an object, as the calls pass them.
pub record Oti : Type 0 where
  pub transfer_len : ℕ
  pub es_len : ℕ
  pub max_sb_len : ℕ
  pub fec_inst_id : ℕ
  pub fec_enc_id : ℕ
  pub max_nb_of_es : ℕ
  pub content_enc_algo : ℕ
  pub finite_field : ℕ
  pub nb_of_es_per_group : ℕ

-- `wanted_obj_t`
pub record WantedObj : Type 0 where
  pub toi : ℕ
  pub oti : Oti

-- Also the result of `get_wanted_object`: NULL, or the first element of that TOI.
unfoldable pub get_wanted_object : List WantedObj → ℕ → Option WantedObj
get_wanted_object [] toi = none
get_wanted_object (tmp ∷ rest) toi = if tmp.toi == toi then some tmp else get_wanted_object rest toi

-- An object that is wanted already stays as it is.
unfoldable pub set_wanted_object : List WantedObj → ℕ → Oti → List WantedObj
set_wanted_object [] toi oti = record { toi = toi; oti = oti } ∷ []
set_wanted_object (tmp ∷ rest) toi oti =
    if tmp.toi == toi then tmp ∷ rest else tmp ∷ set_wanted_object rest toi oti

unfoldable pub remove_wanted_object : List WantedObj → ℕ → List WantedObj
remove_wanted_object [] toi = []
remove_wanted_object (want ∷ rest) toi =
    if want.toi == toi then rest else want ∷ remove_wanted_object rest toi

-- An object that is not wanted is left out.
unfoldable pub update_wanted_object : List WantedObj → ℕ → Oti → List WantedObj
update_wanted_object [] toi oti = []
update_wanted_object (wanted ∷ rest) toi oti =
    if wanted.toi == toi
    then record { toi = toi; oti = oti } ∷ rest
    else wanted ∷ update_wanted_object rest toi oti
