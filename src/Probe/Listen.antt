-- ===== src/Probe/Listen.antt =====
-- The address of the test proxy.
use sing_box_helper.Prelude.{
  Bool, true, false, List, [], ◌∷◌, none, some, String, ◌==◌, if◌then◌else◌, ◌≡◌, ◌≢◌, inl, inr,
  refl, arith, eq_iff, Bool-cases, Option-cases,
}
use sing_box_helper.Text.{trim_space, to_lower, split}
use sing_box_helper.Platform.{Platform}
use sing_box_helper.Probe.{
  inet_of_line, inet_of_lines, parse_ip_inet_line, lan_ip, find_ip_binary, resolve_mixed_listen,
}

-- The address is that of the first line which has one: no line in front of it does.
pub data FirstInet (g : Platform) (ip : String) : List String → Type 0 where
  here :
      {raw : String} {rest : List String}
      → inet_of_line g raw ≡ some ip
      → FirstInet g ip (raw ∷ rest)
  later :
      {raw : String} {rest : List String}
      → inet_of_line g raw ≡ none
      → FirstInet g ip rest
      → FirstInet g ip (raw ∷ rest)

-- An address that the network library accepts.
abbrev pub IsAddress : Platform → String → Type 0
IsAddress g ip = g.parse_ip ip ≢ none

inet_of_line-IsAddress :
    (g : Platform) (raw ip : String) → inet_of_line g raw ≡ some ip → (ip ≢ "") × IsAddress g ip
unfolding inet_of_line
inet_of_line-IsAddress g raw ip h = ground (arith, eq_iff ip "")

inet_of_lines-FirstInet :
    (g : Platform) (lines : List String)
    → inet_of_lines g lines ≢ ""
    → FirstInet g (inet_of_lines g lines) lines × IsAddress g (inet_of_lines g lines)
unfolding inet_of_lines
inet_of_lines-FirstInet g [] h = absurd (h refl)
inet_of_lines-FirstInet g (raw ∷ rest) h = elim (Option-cases (inet_of_line g raw)) [
  | inl e ↦
      let (f, a) = inet_of_lines-FirstInet g rest (rw (inet_of_lines, e) at h) in
      rw (inet_of_lines, e) (later e f, a)
  | inr (ip, e) ↦ rw (inet_of_lines, e) (here e, (inet_of_line-IsAddress g raw ip e).1)
]

-- A detected address is that of the first line of the output of `ip` which has an address that the
-- network library accepts, and it is no empty text.
pub lan_ip_ok :
    (g : Platform) (iface ip : String)
    → lan_ip g iface ≡ some ip
    → (out : String) × (g.run_ip (find_ip_binary g) (if iface == "" then "br0" else iface)
        ≡ some out)
      × FirstInet g ip (split b'\n' out)
      × IsAddress g ip
      × (ip ≢ "")
unfolding lan_ip parse_ip_inet_line
lan_ip_ok g iface ip h =
    elim (Option-cases (g.run_ip (find_ip_binary g) (if iface == "" then "br0" else iface))) [
      | inl e ↦ let h' : none ≡ some ip = rw (lan_ip, e) at h in cc
      | inr (out, e) ↦
          let a = inet_of_lines g (split b'\n' out) in
          let same : a ≡ ip = ground arith in
          let ne : ip ≢ "" = ground (arith, eq_iff ip "") in
          let (f, x) = inet_of_lines-FirstInet g (split b'\n' out) (rw same ne) in
          (out, e, rw same at f, rw same at x, ne)
    ]

abbrev pub is_auto : Platform → String → Bool
is_auto g configured = to_lower g.lower_wide (trim_space configured) == "auto"

-- How the address and the flag come about.
pub data Effective (g : Platform) (configured iface : String) (r : String × Bool) : Type 0 where
  as_set :
      is_auto g configured ≡ false
      → configured ≢ ""
      → r ≡ (configured, false)
      → Effective g configured iface r
  unset : configured ≡ "" → r ≡ ("0.0.0.0", false) → Effective g configured iface r
  detected :
      (ip : String)
      → is_auto g configured ≡ true
      → lan_ip g iface ≡ some ip
      → ip ≢ ""
      → r ≡ (ip, true)
      → Effective g configured iface r
  fallback :
      is_auto g configured ≡ true
      → lan_ip g iface ≡ none
      → r ≡ ("0.0.0.0", true)
      → Effective g configured iface r

-- The address that the test proxy listens on is the setting unless that is empty or "auto" (in any
-- case, with spaces); for "auto" it is the detected address, which is not empty, and without one
-- 0.0.0.0; the flag tells whether the setting is "auto".
pub resolve_mixed_listen-Effective :
    (g : Platform) (configured iface : String)
    → Effective g configured iface (resolve_mixed_listen g configured iface)
unfolding resolve_mixed_listen
resolve_mixed_listen-Effective g configured iface = elim (Bool-cases (is_auto g configured)) [
  | inl auto ↦ elim (Option-cases (lan_ip g iface)) [
    | inl e ↦ fallback auto e (rw (auto, e))
    | inr (ip, e) ↦ detected ip auto e (lan_ip_ok g iface ip e).4 (rw (auto, e))
  ]
  | inr manual ↦ elim (Bool-cases (configured == "")) [
    | inl e ↦ unset ((eq_iff configured "").0 e) (rw (manual, e))
    | inr e ↦ as_set manual (ground (arith, eq_iff configured "")) (rw (manual, e))
  ]
]
