-- ===== src/Network/Lifetime/Ready.antt =====
-- Posting to the queue of the server.
use tower_main.Common.{
  ℕ, ◌≡◌, ap, ◌∙◌, Bool, true, false, if◌then◌else◌, List, [], ◌∷◌, ◌++◌, ◌==◌, nat_eq,
}
use tower_main.Network.Server
use tower_main.Network.Server.{ServerTask}
use tower_main.Network.Lifetime.{Ready}

-- A task that adds and removes no client.
abbrev pub IsNeutral : ServerTask → Type 0
IsNeutral (Server.adds j) = ⊥
IsNeutral (Server.removes j) = ⊥
IsNeutral (Server.handles j packet) = Unit
IsNeutral (Server.resumes j outcome) = Unit
IsNeutral Server.cleans = Unit

pub Ready-neutral :
    (id : ℕ) (target : Bool) (ts : List ServerTask) (t : ServerTask) (present : Bool)
    → IsNeutral t
    → Ready id target ts present
    → Ready id target (ts ++ t ∷ []) present
Ready-neutral id target [] (Server.adds j) b n r = absurd n
Ready-neutral id target [] (Server.removes j) b n r = absurd n
Ready-neutral id target [] (Server.handles j packet) b n r = r
Ready-neutral id target [] (Server.resumes j outcome) b n r = r
Ready-neutral id target [] Server.cleans b n r = r
Ready-neutral id target (Server.adds j ∷ ts) t b n r = Ready-neutral id target ts t _ n r
Ready-neutral id target (Server.removes j ∷ ts) t b n r =
    (r.0, Ready-neutral id target ts t _ n r.1)
Ready-neutral id target (Server.handles j packet ∷ ts) t b n r = Ready-neutral id target ts t b n r
Ready-neutral id target (Server.resumes j outcome ∷ ts) t b n r = Ready-neutral id target ts t b n r
Ready-neutral id target (Server.cleans ∷ ts) t b n r = Ready-neutral id target ts t b n r

pub Ready-adds :
    (id : ℕ) (target : Bool) (ts : List ServerTask) (j : ℕ) (present : Bool)
    → Ready id target ts present
    → Ready id (if j == id then true else target) (ts ++ Server.adds j ∷ []) present
Ready-adds id target [] j b r = ap (λ x. if j == id then true else x) r
Ready-adds id target (Server.adds k ∷ ts) j b r = Ready-adds id target ts j _ r
Ready-adds id target (Server.removes k ∷ ts) j b r = (r.0, Ready-adds id target ts j _ r.1)
Ready-adds id target (Server.handles k packet ∷ ts) j b r = Ready-adds id target ts j b r
Ready-adds id target (Server.resumes k outcome ∷ ts) j b r = Ready-adds id target ts j b r
Ready-adds id target (Server.cleans ∷ ts) j b r = Ready-adds id target ts j b r

pub Ready-removes :
    (id : ℕ) (target : Bool) (ts : List ServerTask) (j : ℕ) (present : Bool)
    → (j ≡ id → target ≡ true)
    → Ready id target ts present
    → Ready id (if j == id then false else target) (ts ++ Server.removes j ∷ []) present
Ready-removes id target [] j b h r = (λ e. r ∙ h e, ap (λ x. if j == id then false else x) r)
Ready-removes id target (Server.adds k ∷ ts) j b h r = Ready-removes id target ts j _ h r
Ready-removes id target (Server.removes k ∷ ts) j b h r =
    (r.0, Ready-removes id target ts j _ h r.1)
Ready-removes id target (Server.handles k packet ∷ ts) j b h r = Ready-removes id target ts j b h r
Ready-removes id target (Server.resumes k outcome ∷ ts) j b h r = Ready-removes id target ts j b h r
Ready-removes id target (Server.cleans ∷ ts) j b h r = Ready-removes id target ts j b h r
