-- ===== src/Attack/Hits.antt =====
-- What the hits of an attack take from the health of each entity.
use tower_main.Common.{
  ℕ, ◌+◌, ◌-◌, ◌^◌, ◌<◌, ◌≡◌, ◌≢◌, refl, sym, ap, subst, ◌∙◌, ◌⊎◌, inl, inr, Bool, true, false,
  if◌then◌else◌, List, [], ◌∷◌, ◌++◌, Option, some, ◌==◌, nat_eq, ==-cases, beq_refl, ≢→==,
  Option-cases, ◌∈◌, Result, ok, err, arith,
}
use tower_main.Common.Int.{ℤ, pos, neg, negsuc, ◌-ℤ◌, ◌≤ℤ◌, sub_int32}
use tower_main.Nodes.{Nodes, get_root}
use tower_main.Nodes.Roots.{Rooted, get_root-Rooted}
use tower_main.Subworld.{CollisionObject}
use tower_main.StateMachine.{StateMachine}
use tower_main.Health
use tower_main.Health.{Resource, change_health, add_mode}
use tower_main.Health.Laws.{change_health-damage}
use tower_main.Attack.{Entity, Entities, put_entity, HealthChange, damage_entity, hit, hit_all}

-- The health of each entity is within its bounds.
abbrev pub AreHealthy : Entities → Type 0
AreHealthy entities =
    (root : ℕ) (e : Entity) → entities root ≡ some e → Health.Laws.IsValid e.resource

-- Each object has a root, fewer than `fuel` parents above it.
abbrev pub HaveRoots : ℕ → Nodes → List CollisionObject → Type 0
HaveRoots fuel nodes objects =
    (o : CollisionObject)
    → o ∈ objects
    → (depth root : ℕ) × (depth < fuel) × Rooted nodes depth o.node_id root

abbrev pub is_ok : Result ℕ → ℕ → Bool
is_ok (ok root) wanted = root == wanted
is_ok (err e) wanted = false

-- `d` for each of the objects whose root is the node.
abbrev pub damage_at : ℕ → ℕ → Nodes → List CollisionObject → ℕ → ℕ
damage_at d fuel nodes [] root = 0
damage_at d fuel nodes (c ∷ rest) root =
    let more = damage_at d fuel nodes rest root in
    if is_ok (get_root fuel c.node_id nodes) root then d + more else more

-- The attacker does not hit itself.
abbrev pub spared : ℕ → ℕ → ℕ → ℕ
spared user_id entity_id damage = if user_id == entity_id then 0 else damage

-- An entity after an attack, with a state machine: its health has dropped by the damage, to 0 at worst.
pub record Hurt (user_id damage : ℕ) (machine : StateMachine (Unit {0})) (before : Entity)
    (after : Option Entity) : Type 0 where
  pub out : Entity
  pub still_there : after ≡ some out
  pub same_id : out.entity_id ≡ before.entity_id
  pub its_machine : out.state_machine ≡ machine
  pub dropped :
      (h : ℕ)
      → before.resource.health ≡ pos h
      → out.resource.health ≡ pos (h - spared user_id before.entity_id damage)

pub record Hits (user_id : ℕ) (damage : ℕ → ℕ) (before : Entities)
    (r : Result (Entities × List HealthChange)) : Type 0 where
  pub after : Entities
  pub damages : List HealthChange
  pub returns : r ≡ ok (after, damages)
  pub healthy : AreHealthy after
  pub hurt :
      (root : ℕ) (e : Entity)
      → before root ≡ some e
      → Hurt user_id (damage root) e.state_machine e (after root)

pos-injective : {a b : ℕ} → pos a ≡ pos b → a ≡ b
pos-injective e = cc

health-pos : (r : Resource) → Health.Laws.IsValid r → (h : ℕ) × (r.health ≡ pos h)
health-pos r v = nonneg r.health v.not_below
  where
    nonneg : (z : ℤ) → pos 0 ≤ℤ z → (h : ℕ) × (z ≡ pos h)
    nonneg (pos h) le = (h, refl)
    nonneg (negsuc n) le = absurd (ground arith)

negated : (d : ℕ) → d < 2 ^ 31 → sub_int32 (pos 0) (pos d) ≡ ok (neg (pos d))
unfolding sub_int32 ◌-ℤ◌
negated d h = ground arith

unhurt :
    (user_id damage : ℕ) (e : Entity) {after : Option Entity}
    → after ≡ some e
    → spared user_id e.entity_id damage ≡ 0
    → Hurt user_id damage e.state_machine e after
unhurt user_id damage e there none_taken = record {
  out = e;
  still_there = there;
  same_id = refl;
  its_machine = refl;
  dropped = λ h is. rw none_taken (is ∙ ap (λ k. pos k) (omega arith));
}

some-injective : {a b : Entity} → some a ≡ some b → a ≡ b
some-injective e = cc

-- Of one node and the entity there.
pub subst-entity :
    (entities : Entities) (P : ℕ → Entity → Type 0) {root other : ℕ} {e f : Entity}
    → root ≡ other
    → entities root ≡ some e
    → entities other ≡ some f
    → P root e
    → P other f
subst-entity entities P {root} {other} {e} {f} same there is_at p =
    subst (λ k. entities k ≡ some f → P k f) same
      (λ at_root. subst (λ g. P root g) (some-injective (sym there ∙ at_root)) p) is_at

if-some :
    (b : Bool) (a f : Entity) (o : Option Entity)
    → (if b then some a else o) ≡ some f
    → (a ≡ f) ⊎ (o ≡ some f)
if-some true a f o e = inl (some-injective e)
if-some false a f o e = inr e

pub healthy-put :
    (root : ℕ) (e : Entity) (entities : Entities)
    → Health.Laws.IsValid e.resource
    → AreHealthy entities
    → AreHealthy (put_entity root e entities)
healthy-put root e entities valid healthy other f is =
    elim (if-some (root == other) e f (entities other) is) [
      | inl same ↦ subst (λ (k : Entity). Health.Laws.IsValid k.resource) same valid
      | inr kept ↦ healthy other f kept
    ]

spared-none : (user_id entity_id : ℕ) → spared user_id entity_id 0 ≡ 0
spared-none user_id entity_id = ground arith

drop-sum :
    (user_id entity_id first later total h : ℕ)
    → total ≡ first + later
    → h - spared user_id entity_id first - spared user_id entity_id later
      ≡ h - spared user_id entity_id total
drop-sum user_id entity_id first later total h sum = ground arith

sum-if : (b : Bool) (d more : ℕ) → (if b then d + more else more) ≡ (if b then d else 0) + more
sum-if b d more = ground arith

-- The damage of one hit.
abbrev at_root_only : ℕ → ℕ → ℕ → ℕ
at_root_only d root other = if root == other then d else 0

self-Hurt :
    (d user_id root : ℕ) (e : Entity) (entities : Entities) (resource : Resource) (h : ℕ)
    → user_id ≢ e.entity_id
    → e.resource.health ≡ pos h
    → resource.health ≡ pos (h - d)
    → Hurt user_id
        (at_root_only d root root)
        e.state_machine
        e
        (put_entity root (record e { resource = resource }) entities root)
self-Hurt d user_id root e entities resource h apart is drops = rw (beq_refl root) (record {
  out = record e { resource = resource };
  still_there = refl;
  same_id = refl;
  its_machine = refl;
  dropped = λ k is'.
      rw (≢→== user_id e.entity_id apart)
        (drops ∙ ap (λ n. pos (n - d)) (pos-injective (sym is ∙ is')));
})

damage_entity-Hits :
    (d user_id root : ℕ) (e : Entity) (entities : Entities) (damages : List HealthChange)
    → d < 2 ^ 31
    → AreHealthy entities
    → entities root ≡ some e
    → user_id ≢ e.entity_id
    → Hits user_id (at_root_only d root) entities (damage_entity (pos d) root e (entities, damages))
unfolding damage_entity
damage_entity-Hits d user_id root e entities damages small healthy there apart =
    let (h, is) = health-pos e.resource (healthy root e there) in
    let (resource, returns, drops, valid) =
      change_health-damage e.resource h d (healthy root e there) is (omega (arith, small)) in
    rw (negated d small, returns)
      (record {
        after = put_entity root (record e { resource = resource }) entities;
        damages = damages ++ record { entity_id = e.entity_id; amount = neg (pos d) } ∷ [];
        returns = refl;
        healthy = healthy-put root (record e { resource = resource }) entities valid healthy;
        hurt = λ other f is_at. elim (==-cases root other) [
          | inl (same, t) ↦
              subst-entity entities
                (λ k g.
                  Hurt user_id (at_root_only d root k) g.state_machine g
                    (put_entity root (record e { resource = resource }) entities k))
                same there is_at (self-Hurt d user_id root e entities resource h apart is drops)
          | inr (_, t) ↦ rw t (unhurt user_id 0 f is_at (spared-none user_id f.entity_id))
        ];
      })

-- A step that changes nothing.
idle-Hits :
    (d user_id root : ℕ) (entities : Entities) (damages : List HealthChange)
    → AreHealthy entities
    → ((e : Entity) → entities root ≡ some e → user_id ≡ e.entity_id)
    → Hits user_id (at_root_only d root) entities (ok (entities, damages))
idle-Hits d user_id root entities damages healthy itself = record {
  after = entities;
  damages = damages;
  returns = refl;
  healthy = healthy;
  hurt = λ other f is_at. elim (==-cases root other) [
    | inl (same, t) ↦
        let self = itself f (ap (λ k. entities k) same ∙ is_at) in
        unhurt user_id (at_root_only d root other) f is_at (rw (self, beq_refl f.entity_id))
    | inr (_, t) ↦ rw t (unhurt user_id 0 f is_at (spared-none user_id f.entity_id))
  ];
}

-- Two changes, one after the other.
Hurt-trans :
    (user_id first later total : ℕ) (e : Entity) {middle last : Option Entity}
    → total ≡ first + later
    → Hurt user_id first e.state_machine e middle
    → ((g : Entity) → middle ≡ some g → Hurt user_id later g.state_machine g last)
    → Hurt user_id total e.state_machine e last
Hurt-trans user_id first later total e sum before after =
    let more = after before.out before.still_there in
    record {
      out = more.out;
      still_there = more.still_there;
      same_id = more.same_id ∙ before.same_id;
      its_machine = more.its_machine ∙ before.its_machine;
      dropped = λ h is.
          more.dropped (h - spared user_id e.entity_id first) (before.dropped h is)
          ∙ ap (λ n. pos (h - spared user_id e.entity_id first - spared user_id n later))
              before.same_id
          ∙ ap (λ n. pos n) (drop-sum user_id e.entity_id first later total h sum);
    }

module _ (fuel : ℕ) (nodes : Nodes) (d : ℕ) (small : d < 2 ^ 31) (user_id : ℕ) where
  hit-Hits :
      (c : CollisionObject) (root : ℕ) (entities : Entities) (damages : List HealthChange)
      → AreHealthy entities
      → get_root fuel c.node_id nodes ≡ ok root
      → Hits user_id
          (at_root_only d root)
          entities
          (hit fuel nodes (pos d) user_id c (entities, damages))
  unfolding hit
  hit-Hits c root entities damages healthy at = elim (Option-cases (entities root)) [
    | inl nobody ↦
        rw (at, nobody)
          (idle-Hits d user_id root entities damages healthy
            (λ e there. (let f = sym nobody ∙ there in absurd (cc))))
    | inr (e, there) ↦ elim (==-cases user_id e.entity_id) [
      | inl (self, t) ↦
          rw (at, there, t)
            (idle-Hits d user_id root entities damages healthy
              (λ f is. self ∙ ap (λ (k : Entity). k.entity_id) (some-injective (sym there ∙ is))))
      | inr (apart, t) ↦
          rw (at, there, t)
            (damage_entity-Hits d user_id root e entities damages small healthy there apart)
    ]
  ]

  pub hit_all-Hits :
      (colliders : List CollisionObject) (entities : Entities) (damages : List HealthChange)
      → AreHealthy entities
      → HaveRoots fuel nodes colliders
      → Hits user_id
          (damage_at d fuel nodes colliders)
          entities
          (hit_all fuel nodes (pos d) user_id colliders (entities, damages))
  unfolding hit_all
  hit_all-Hits [] entities damages healthy roots = record {
    after = entities;
    damages = damages;
    returns = refl;
    healthy = healthy;
    hurt = λ root e there. unhurt user_id 0 e there (spared-none user_id e.entity_id);
  }
  hit_all-Hits (c ∷ rest) entities damages healthy roots =
      let (depth, root, enough, rooted) = roots c (inl refl) in
      let at = get_root-Rooted fuel enough rooted in
      let one = hit-Hits c root entities damages healthy at in
      let more = hit_all-Hits rest one.after one.damages one.healthy (λ o m. roots o (inr m)) in
      record {
        after = more.after;
        damages = more.damages;
        returns = rw (one.returns) more.returns;
        healthy = more.healthy;
        hurt = λ other e there.
            Hurt-trans user_id (at_root_only d root other) (damage_at d fuel nodes rest other) _ e
              (rw at (sum-if (root == other) d (damage_at d fuel nodes rest other)))
              (one.hurt other e there) (λ g is. more.hurt other g is);
      }
