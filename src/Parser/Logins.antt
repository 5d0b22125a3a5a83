-- ===== src/Parser/Logins.antt =====
-- What an outbound holds to authenticate with.
use Prim.Native.String.{◌++◌}
use sing_box_helper.Text.{trim_space}
use sing_box_helper.Prelude.{
  ◌==◌, Bool-cases, Option-cases, sym, ap, ◌∙◌, String, Option, none, some, ok, ◌≡◌, ◌≢◌, ◌⊎◌, inl,
  inr, refl, arith, eq_iff, true, OneOf, OneOf-one_of, [], ◌∷◌,
}
use sing_box_helper.Platform.{Platform, Url, UserInfo}
use sing_box_helper.Parser.Types.{Outbound, ParsedNode}
use sing_box_helper.Parser.Hysteria.{user_password, joined_password}
use sing_box_helper.Parser.Vless.{is_uuid, extract_uuid}
use sing_box_helper.Parser.Socks.{Credentials, credentials, socks_version}
use sing_box_helper.Parser.Stages.{Origin, from_hysteria, from_vless, from_socks, parse_stages}
use sing_box_helper.Parser.Dispatch.{parse}

-- The whole user-info, with its colon put back.
abbrev pub WholeUser : UserInfo → String → Type 0
WholeUser user p =
    ((user.password ≡ none) × (p ≡ user.username))
    ⊎ ((pw : String) × (user.password ≡ some pw) × (p ≡ user.username ++ (":" ++ pw)))

-- The password is that of the user-info, and "" only stands for none where there is no name.
abbrev pub OwnPassword : UserInfo → String → Type 0
OwnPassword user p =
    (user.password ≡ some p) ⊎ ((user.password ≡ none) × (user.username ≡ "") × (p ≡ ""))

-- What the outbound of a URL authenticates with.
pub data Login (u : Url) (o : Outbound) : Type 0 where
  by_uuid :
      (user : UserInfo)
      → o.kind ≡ "vless"
      → u.user ≡ some user
      → user.password ≡ none
      → o.uuid ≡ user.username
      → is_uuid o.uuid ≡ true
      → o.password ≡ ""
      → o.username ≡ ""
      → Login u o
  by_password :
      (user : UserInfo)
      → o.kind ≡ "hysteria2"
      → u.user ≡ some user
      → WholeUser user o.password
      → o.password ≢ ""
      → o.uuid ≡ ""
      → o.username ≡ ""
      → Login u o
  no_login :
      o.kind ≡ "socks"
      → (u.user ≡ none) ⊎ OneOf o.version ("4" ∷ "4a" ∷ [])
      → o.uuid ≡ ""
      → o.username ≡ ""
      → o.password ≡ ""
      → Login u o
  by_name :
      (user : UserInfo)
      → o.kind ≡ "socks"
      → o.version ≡ "5"
      → u.user ≡ some user
      → o.uuid ≡ ""
      → o.username ≡ user.username
      → OwnPassword user o.password
      → Login u o

user_password_ok :
    (user : Option UserInfo) (pw : String)
    → user_password user ≡ ok pw
    → (who : UserInfo) × (user ≡ some who) × WholeUser who pw × (pw ≢ "")
user_password_ok none pw h = cc
user_password_ok (some user) pw h = elim (Bool-cases (joined_password user == "")) [
  | inl t ↦ cc (rw t at h)
  | inr t ↦
      let same : joined_password user ≡ pw = ground arith in
      (user, refl, whole user.password refl same, ground (arith, eq_iff (joined_password user) ""))
]
  where
    whole : (p : Option String) → user.password ≡ p → joined_password user ≡ pw → WholeUser user pw
    whole none e same =
        inl (e, sym same ∙ ap (λ x. joined_password (record user { password = x })) e)
    whole (some q) e same =
        inr (q, e, sym same ∙ ap (λ x. joined_password (record user { password = x })) e)

extract_uuid_ok :
    (user : Option UserInfo) (uuid : String)
    → extract_uuid user ≡ ok uuid
    → (who : UserInfo) × (user ≡ some who)
      × (who.password ≡ none)
      × (uuid ≡ who.username)
      × (is_uuid uuid ≡ true)
unfolding extract_uuid
extract_uuid_ok none uuid h = cc
extract_uuid_ok (some user) uuid h = elim (Option-cases user.password) [
  | inl e ↦ (user, refl, e, ground arith, ground arith)
  | inr (pw, e) ↦ cc (rw e at h)
]

socks_version_ok :
    (scheme v : String) → socks_version scheme ≡ ok v → (v ≡ "5") ⊎ OneOf v ("4" ∷ "4a" ∷ [])
unfolding socks_version
socks_version_ok scheme v h = ground arith

credentials_of_v4 :
    (v : String) (user : Option UserInfo) (c : Credentials)
    → OneOf v ("4" ∷ "4a" ∷ [])
    → credentials v user ≡ ok c
    → (c.username ≡ "") × (c.password ≡ "")
unfolding credentials
credentials_of_v4 v none c m h = ground arith
credentials_of_v4 v (some user) c m h = let e = OneOf-one_of v ("4" ∷ "4a" ∷ []) m in ground arith

credentials_of_none :
    (v : String) (c : Credentials)
    → credentials v none ≡ ok c
    → (c.username ≡ "") × (c.password ≡ "")
unfolding credentials
credentials_of_none v c h = ground arith

credentials_of_v5 :
    (user : UserInfo) (c : Credentials)
    → credentials "5" (some user) ≡ ok c
    → (c.username ≡ user.username) × OwnPassword user c.password
unfolding credentials
credentials_of_v5 user c h = elim (Option-cases user.password) [
  | inl e ↦ elim (Bool-cases (user.username == "")) [
    | inl t ↦ (ground arith, inr (e, (eq_iff user.username "").0 t, ground arith))
    | inr t ↦ absurd (ground arith)
  ]
  | inr (pw, e) ↦ (ground arith, inl (ground arith))
]

module _ (g : Platform) (u : Url) (n : ParsedNode) where
  Origin-Login : Origin g u n → Login u n.outbound
  Origin-Login (from_hysteria s) =
      let (who, user, whole, some_password) = user_password_ok u.user s.password s.password_ok in
      rw s.result_is (by_password who refl user whole some_password refl refl)
  Origin-Login (from_vless s) =
      let (who, user, alone, same, valid) = extract_uuid_ok u.user s.uuid s.uuid_ok in
      rw s.result_is (by_uuid who refl user alone same valid refl refl)
  Origin-Login (from_socks s) = elim (socks_version_ok _ _ s.version_ok) [
    | inr m ↦
        let (a, b) = credentials_of_v4 s.version u.user s.login m s.login_ok in
        rw s.result_is (no_login refl (inr m) refl a b)
    | inl e ↦ elim (Option-cases u.user) [
      | inl nobody ↦
          let (a, b) = credentials_of_none s.version s.login (rw nobody at s.login_ok) in
          rw s.result_is (no_login refl (inl nobody) refl a b)
      | inr (who, user) ↦
          let (a, b) = credentials_of_v5 who s.login (rw (user, e) at s.login_ok) in
          rw s.result_is (by_name who refl e user refl a b)
    ]
  ]

-- The login of a URI that parses is that of the user-info of its URL. A VLESS outbound has a
-- well-formed UUID, which is all of the user-info, and no password; a Hysteria2 one has the whole
-- user-info, with its colon, as its password, which is not empty; a SOCKS one of version 5 has the
-- name and the password of the user-info, which has a password if it has a name; and a SOCKS one of
-- version 4 or 4a, or of a URL without user-info, has neither name nor password.
pub parse-Login :
    (g : Platform) (raw : String) (n : ParsedNode)
    → parse g raw ≡ ok n
    → (u : Url) × (g.parse_url (trim_space raw) ≡ ok u) × Login u n.outbound
parse-Login g raw n h = let (u, p, o) = parse_stages g raw n h in (u, p, Origin-Login g u n o)
