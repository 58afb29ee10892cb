-- ===== src/Network/Membership.antt =====
-- Which clients a zone holds once the tasks that are posted to it have run, against the zone that the server has
-- noted for each client.
pub mod ZoneTasks
pub mod Edits
pub mod Steps
use tower_main.Common.{
  ℕ, ◌≡◌, Bool, true, false, if◌then◌else◌, List, [], ◌∷◌, ◌++◌, Option, none, some, ◌==◌, nat_eq,
  Result, ok, err, ◌>>=◌, refl, subst,
}
use tower_main.Common.Map.{Map, lookup}
use tower_main.Network.Zone
use tower_main.Network.Zone.{Gameplay, ZoneTask, adds, removes, handles, ticks}
use tower_main.Network.Server
use tower_main.Network.Server.{Server}

abbrev pub is_some : {A : Type 0} → Option A → Bool
is_some none = false
is_some (some a) = true

abbrev pub holds : ℕ → Map ℕ ℕ → Bool
holds id clients = is_some (lookup id clients)

abbrev pub applied : ℕ → ZoneTask → Bool → Bool
applied id (adds j) b = if j == id then true else b
applied id (removes j) b = if j == id then false else b
applied id (handles j packet) b = b
applied id ticks b = b

abbrev pub settled : ℕ → List ZoneTask → Bool → Bool
settled id [] b = b
settled id (t ∷ ts) b = settled id ts (applied id t b)

-- Whether the zone holds the client when its tasks have run.
abbrev pub will_hold : {S : Type 0} → ℕ → Zone.Zone S → Bool
will_hold id zone = settled id zone.tasks (holds id zone.clients)

-- Whether the server has noted this zone for the client.
abbrev pub is_zone : ℕ → Option ℕ → Bool
is_zone zone_id none = false
is_zone zone_id (some current) = current == zone_id

abbrev pub is_noted : ℕ → ℕ → Map ℕ ℕ → Bool
is_noted id zone_id current_zones = is_zone zone_id (lookup id current_zones)

pub record Agrees {S : Type 0} (zones : Map ℕ (Zone.Zone S)) (current_zones : Map ℕ ℕ)
    : Type 0 where
  pub no_zone_zero : lookup 0 zones ≡ none
  pub agree :
      (id zone_id : ℕ) (zone : Zone.Zone S)
      → lookup zone_id zones ≡ some zone
      → will_hold id zone ≡ is_noted id zone_id current_zones

-- There is no zone 0, and a zone will hold a client exactly if the server has noted the zone for it.
abbrev pub Synced : {game : Gameplay} → Server game → Type 0
Synced s = Agrees s.zones s.clients_current_zone

-- `P` holds of the value, if there is one.
abbrev pub OnOk : {A : Type 0} → (A → Type 0) → Result A → Type 0
OnOk P (ok a) = P a
OnOk P (err e) = Unit

pub OnOk-bind :
    {A B : Type 0} (P : B → Type 0) (f : A → Result B) (r : Result A)
    → ((a : A) → OnOk P (f a))
    → OnOk P (r >>= f)
OnOk-bind P f (ok a) h = h a
OnOk-bind P f (err e) h = tt

pub OnOk-chain :
    {A B : Type 0} {Q : A → Type 0} (P : B → Type 0) (f : A → Result B) (r : Result A)
    → OnOk Q r
    → ((a : A) → Q a → OnOk P (f a))
    → OnOk P (r >>= f)
OnOk-chain P f (ok a) q h = h a q
OnOk-chain P f (err e) q h = tt

pub OnOk-ok : {A : Type 0} (P : A → Type 0) {r : Result A} {a : A} → OnOk P r → r ≡ ok a → P a
OnOk-ok P h e = subst (OnOk P) e h

pub settled-append :
    (id : ℕ) (ts : List ZoneTask) (t : ZoneTask) (b : Bool)
    → settled id (ts ++ t ∷ []) b ≡ applied id t (settled id ts b)
settled-append id [] t b = refl
settled-append id (u ∷ ts) t b = settled-append id ts t (applied id u b)
