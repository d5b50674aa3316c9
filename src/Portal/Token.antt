-- ===== src/Portal/Token.antt =====
-- linux/input-router/src/router.rs: the file with the restore token, as its content.
use beaglewing.Common.Bytes.{Bytes}
use beaglewing.Common.{if◌then◌else◌, ◌≡◌, refl, ◌≢◌, Bool, true, Option, none, some, [], ◌∷◌}

-- An empty token counts as none.
non_empty : Bytes → Option Bytes
non_empty [] = none
non_empty (b ∷ bs) = some (b ∷ bs)

unfoldable pub load_token : (Bytes → Bytes) → Option Bytes → Option Bytes
unfolding non_empty
load_token trim none = none
load_token trim (some text) = non_empty (trim text)

-- The file after an attempt to write to it.
unfoldable pub save_token : Bool → Bytes → Option Bytes → Option Bytes
save_token writes token file = if writes then some token else file

-- What `run` does with the token that `start` returned, if there is one.
unfoldable pub keep_token : Bool → Option Bytes → Option Bytes → Option Bytes
unfolding save_token
keep_token writes none file = file
keep_token writes (some token) file = save_token writes token file

-- A token that was written is the one that the next start of the router gives to the portal,
-- provided that it is not empty and that `trim` leaves it as it is.
pub load_token-keep_token :
    (trim : Bytes → Bytes) (token : Bytes) (file : Option Bytes)
    → token ≢ []
    → trim token ≡ token
    → load_token trim (keep_token true (some token) file) ≡ some token
unfolding load_token keep_token
load_token-keep_token trim [] file n t = absurd (n refl)
load_token-keep_token trim (b ∷ bs) file n t = rw (t, non_empty) refl
