-- ===== src/Stratum/Router/Tests.antt =====
-- The routing of devices at work.
use pipool.Base.{ℕ, false, ◌≡◌, refl, List, length, map, ◌∷◌, ◌++◌, ◌⊎◌}
use pipool.Base.Bytes.{All}
use pipool.Go.Contains.{contains}
use pipool.Go.Strings.{codes, str_eq, to_lower, has_prefix}
use pipool.Toy.{whole}
use pipool.Stratum.Router.{
  DeviceClass, DeviceSignature, matches, first_match, haystack_of, default_device, or_default,
  route,
}
use pipool.Stratum.Router.Table.{router_table}
use pipool.Stratum.Router.Live.{
  shadows, drop_shadowed, live, has_name, shadowed_names, route-has_name,
}
use pipool.Stratum.Router.Choice.{IsFirst, Fits, route-IsFirst}

abbrev user_agent : List ℕ
user_agent = codes "Antminer S19j Pro/1.0"

-- A device that has a signature of its own, which the signature of the plain S19 shadows.
route-test :
    (route whole (router_table whole) user_agent (codes "rig") (codes "sha256d")).name
    ≡ codes "Antminer S19"
unfolding contains str_eq to_lower has_prefix matches first_match haystack_of default_device
    or_default route
route-test = refl

-- Of the 69 signatures, 58 are ever used.
live-test : length (live (router_table whole)) ≡ 58
unfolding contains str_eq to_lower has_prefix shadows drop_shadowed live
live-test = refl

abbrev s19j_class : DeviceClass ℕ
s19j_class = route whole (router_table whole) user_agent (codes "rig") (codes "sha256d")

route-has_name_example : has_name shadowed_names s19j_class ≡ false
route-has_name_example = route-has_name whole user_agent (codes "rig") (codes "sha256d")

route-IsFirst_example :
    IsFirst
      (router_table whole)
      (map to_lower (user_agent ++ (32 ∷ codes "rig")))
      (codes "sha256d")
      s19j_class
    ⊎ (All
          (λ (s : DeviceSignature ℕ).
            ¬ Fits (map to_lower (user_agent ++ (32 ∷ codes "rig"))) (codes "sha256d") s)
          (router_table whole)
        × (s19j_class ≡ default_device whole (codes "sha256d")))
route-IsFirst_example = route-IsFirst whole user_agent (codes "rig") (codes "sha256d")
