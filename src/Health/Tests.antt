-- ===== src/Health/Tests.antt =====
-- Changes of the health of a wounded entity.
use tower_main.Common.{◌≡◌, refl, ◌⊎◌, ◌-◌, ◌^◌, false, [], ◌∷◌, ok, err, overflow, arith}
use tower_main.Common.Int.{pos, neg, ◌+ℤ◌, ◌-ℤ◌, leb_ℤ, ◌≤ℤ◌}
use tower_main.Health.{add_mode, set_mode, Resource, change_health}
use tower_main.Health.Laws.{
  IsValid, Changes, saturate, change_health-add, change_health-set, change_health-damage,
}

abbrev wounded : Resource
wounded = record { max_health = pos 100; health = pos 50; changes = [] }

abbrev healed : Resource
healed = record { max_health = pos 100; health = pos 100; changes = (add_mode, pos 70) ∷ [] }

wounded-IsValid : IsValid wounded
wounded-IsValid = omega arith

heal : change_health add_mode (pos 70) wounded ≡ ok healed
unfolding change_health ◌+ℤ◌
heal = refl

change_health-add_example :
    (pos (2 ^ 31) ≤ℤ pos 50 +ℤ pos 70) × (change_health add_mode (pos 70) wounded ≡ err overflow)
    ⊎ (leb_ℤ (pos (2 ^ 31)) (pos 50 +ℤ pos 70) ≡ false)
      × Changes add_mode wounded
          (pos 50 +ℤ pos 70)
          (pos 70)
          (change_health add_mode (pos 70) wounded)
change_health-add_example = change_health-add wounded (pos 70) wounded-IsValid (omega arith)

change_health-set_example :
    Changes set_mode wounded
      (pos 400)
      (saturate (pos 100) (pos 400) -ℤ pos 50)
      (change_health set_mode (pos 400) wounded)
change_health-set_example = change_health-set wounded (pos 400) wounded-IsValid

change_health-damage_example :
    (r' : Resource) × (change_health add_mode (neg (pos 60)) wounded ≡ ok r')
    × (r'.health ≡ pos (50 - 60))
    × IsValid r'
change_health-damage_example = change_health-damage wounded 50 60 wounded-IsValid refl (omega arith)
