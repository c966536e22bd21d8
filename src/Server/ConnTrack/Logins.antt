-- ===== src/Server/ConnTrack/Logins.antt =====
-- Who is behind an address, as the tracker of internal/app/server/inspect.go knows it.
use meshtk.Prelude.{
  ℕ, Bool-cases, Option, none, some, Option-cases, String, str_eq, ◌≡◌, inl, inr, refl, ◌∙◌, arith,
}
use meshtk.Server.ConnTrack.{ConnTrack, update, touch_conn_track, remember_gateway, set_conn_track}
use meshtk.Server.Inspector.{ConnectionInfo}

-- What a CONNECT told of itself, and no later packet may change.
abbrev pub Login : Type 0
Login = String × String × String × ℕ

abbrev pub login_of : ConnectionInfo → Login
login_of info = (info.client_id, info.username, info.password, info.protocol_version)

abbrev pub login : Option ConnectionInfo → Option Login
login none = none
login (some info) = some (login_of info)

-- The same logins behind the same addresses.
abbrev pub SameLogins : ConnTrack → ConnTrack → Type 0
SameLogins m m' = (a : String) → login (m' a) ≡ login (m a)

pub SameLogins-trans :
    (m m' m'' : ConnTrack) → SameLogins m m' → SameLogins m' m'' → SameLogins m m''
SameLogins-trans m m' m'' p q a = q a ∙ p a

update-SameLogins :
    (addr : String) (f : ConnectionInfo → ConnectionInfo) (m : ConnTrack)
    → ((info : ConnectionInfo) → login_of (f info) ≡ login_of info)
    → SameLogins m (update addr f m)
update-SameLogins addr f m keeps a = elim (Bool-cases (str_eq a addr)) [
  | inr other ↦ rw other refl
  | inl here ↦ elim (Option-cases (m a)) [
    | inl missing ↦ ground arith
    | inr (info, has) ↦ ground (arith, keeps info)
  ]
]

pub touch-SameLogins :
    (now : ℕ) (addr : String) (m : ConnTrack) → SameLogins m (touch_conn_track now addr m)
unfolding touch_conn_track
touch-SameLogins now addr m = update-SameLogins addr _ m (λ info. refl)

pub remember-SameLogins :
    (addr gateway : String) (m : ConnTrack) → SameLogins m (remember_gateway addr gateway m)
unfolding remember_gateway
remember-SameLogins addr gateway m = update-SameLogins addr _ m (λ info. refl)

pub set_conn_track-SameLogins :
    (now : ℕ) (addr : String) (given : ConnectionInfo) (m : ConnTrack)
    → SameLogins m (set_conn_track now addr given m).0
unfolding set_conn_track
set_conn_track-SameLogins now addr given m = touch-SameLogins now addr m
