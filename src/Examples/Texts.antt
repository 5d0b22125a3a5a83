-- ===== src/Examples/Texts.antt =====
-- The functions on texts.
use sing_box_helper.Prelude.{◌≡◌, refl, true, none, some, pos, negsuc, [], ◌∷◌}
use sing_box_helper.Text.{
  trim_space, to_lower, equal_fold, split, strip_prefix, atoi, before, fields,
}
use sing_box_helper.Probe.{resolve_mixed_listen}
use sing_box_helper.Examples.Toy.{toy}

texts : Unit {0}
unfolding trim_space to_lower equal_fold split strip_prefix atoi before fields
texts = tt

trim_test : trim_space " \t ab c\n " ≡ "ab c"
unfolding texts
trim_test = refl

atoi_tests :
    (atoi "-12" ≡ some (negsuc 11))
    × (atoi "+443" ≡ some (pos 443))
    × (atoi "" ≡ none)
    × (atoi "4x" ≡ none)
    × (atoi "9223372036854775808" ≡ none)
unfolding texts
atoi_tests = (refl, refl, refl, refl, refl)

case_tests : (to_lower (λ c. c) "HeLLo1" ≡ "hello1") × (equal_fold "VLEſS" "vless" ≡ true)
unfolding texts
case_tests = (refl, refl)

split_tests :
    (split b',' "a,,b" ≡ "a" ∷ "" ∷ "b" ∷ [])
    × (fields "  inet 10.0.0.1/8\t x " ≡ "inet" ∷ "10.0.0.1/8" ∷ "x" ∷ [])
    × (before b'/' "10.0.0.1/8" ≡ some "10.0.0.1")
    × (strip_prefix "inet " "inet x" ≡ some "x")
unfolding texts
split_tests = (refl, refl, refl, refl)

listen_test : resolve_mixed_listen toy " Auto" "br0" ≡ ("192.168.1.1", true)
unfolding texts toy resolve_mixed_listen sing_box_helper.Probe.lan_ip
    sing_box_helper.Probe.find_ip_binary sing_box_helper.Probe.parse_ip_inet_line
    sing_box_helper.Probe.inet_of_line
listen_test = refl
