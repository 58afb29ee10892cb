-- ===== src/Subworld/Removals.antt =====
-- The removal of an entity undoes its addition.
use tower_main.Common.{
  ℕ, zero, suc, ◌+◌, ◌<◌, ◌≡◌, ◌≢◌, refl, sym, ap, ◌∙◌, inl, inr, Bool, true, false, if◌then◌else◌,
  List, [], ◌∷◌, ◌++◌, Option, none, some, ◌==◌, nat_eq, ==-cases, ≢→==, beq_refl, Bool-cases, ◌∈◌,
  ok, arith,
}
use tower_main.Common.Map.{Map, lookup, insert, erase}
use tower_main.Nodes.{Nodes, get_children}
use tower_main.Subworld.{CollisionObject, Subworld, remove_object}
use tower_main.Subworld.Trees.{
  EntityNode, put_object, drop_object, if_object, add_children, remove_children, add_entity,
  remove_entity,
}

abbrev pub object_list : Option CollisionObject → List CollisionObject
object_list none = []
object_list (some o) = o ∷ []

abbrev each : (CollisionObject → Subworld → Subworld) → List CollisionObject → Subworld → Subworld
each change [] w = w
each change (o ∷ os) w = each change os (change o w)

each-append :
    (change : CollisionObject → Subworld → Subworld) (xs ys : List CollisionObject) (w : Subworld)
    → each change (xs ++ ys) w ≡ each change ys (each change xs w)
each-append change [] ys w = refl
each-append change (x ∷ xs) ys w = each-append change xs ys (change x w)

each-object :
    (change : CollisionObject → Subworld → Subworld) (o : Option CollisionObject) (w : Subworld)
    → each change (object_list o) w ≡ if_object change o w
each-object change none w = refl
each-object change (some o) w = refl

-- The list without the objects whose `node_id` is one of those of `gone`.
abbrev is_among : List CollisionObject → ℕ → Bool
is_among [] id = false
is_among (o ∷ os) id = let rest = is_among os id in if id == o.node_id then true else rest

abbrev without : List CollisionObject → List CollisionObject → List CollisionObject
without gone [] = []
without gone (o ∷ os) =
    let rest = without gone os in if is_among gone o.node_id then rest else o ∷ rest

without-none : (os : List CollisionObject) → without [] os ≡ os
without-none [] = refl
without-none (o ∷ os) = ap (λ k. o ∷ k) (without-none os)

without-remove_object :
    (gone : List CollisionObject) (p : CollisionObject) (os : List CollisionObject)
    → without gone (remove_object p.node_id os) ≡ without (p ∷ gone) os
unfolding remove_object
without-remove_object gone p [] = refl
without-remove_object gone p (o ∷ os) = elim (Bool-cases (o.node_id == p.node_id)) [
  | inl t ↦ rw t (without-remove_object gone p os)
  | inr t ↦ elim (Bool-cases (is_among gone o.node_id)) [
    | inl u ↦ rw (t, u) (without-remove_object gone p os)
    | inr u ↦ rw (t, u) (ap (λ k. o ∷ k) (without-remove_object gone p os))
  ]
]

without-again :
    (gone : List CollisionObject) (p : CollisionObject) (os : List CollisionObject)
    → is_among gone p.node_id ≡ true
    → without (p ∷ gone) os ≡ without gone os
without-again gone p [] e = refl
without-again gone p (o ∷ os) e = elim (==-cases o.node_id p.node_id) [
  | inl (same, t) ↦ rw (t, same, e) (without-again gone p os e)
  | inr (apart, t) ↦ rw (t, without-again gone p os e)
]

is_among-mem :
    (o : CollisionObject) (os : List CollisionObject) → o ∈ os → is_among os o.node_id ≡ true
is_among-mem o [] m = absurd m
is_among-mem o (p ∷ os) (inl e) = rw (ap (λ (k : CollisionObject). k.node_id) e, beq_refl p.node_id)
is_among-mem o (p ∷ os) (inr m) = elim (Bool-cases (o.node_id == p.node_id)) [
  | inl t ↦ rw t
  | inr t ↦ rw t (is_among-mem o os m)
]

put-without :
    (gone : List CollisionObject) (o : CollisionObject) (w : Subworld)
    → o ∈ gone
    → without gone (put_object o w).collision_objects ≡ without gone w.collision_objects
put-without gone o w m =
    rw (is_among-mem o gone m, without-remove_object gone o w.collision_objects)
      (without-again gone o w.collision_objects (is_among-mem o gone m))

put_all-without :
    (gone os : List CollisionObject) (w : Subworld)
    → ((o : CollisionObject) → o ∈ os → o ∈ gone)
    → without gone (each put_object os w).collision_objects ≡ without gone w.collision_objects
put_all-without gone [] w h = refl
put_all-without gone (o ∷ os) w h =
    put_all-without gone os (put_object o w) (λ p m. h p (inr m))
    ∙ put-without gone o w (h o (inl refl))

drop_all :
    (os : List CollisionObject) (w : Subworld)
    → each drop_object os w ≡ record w { collision_objects = without os w.collision_objects }
drop_all [] w =
    ap (λ k. record w { collision_objects = k }) (sym (without-none w.collision_objects))
drop_all (o ∷ os) w =
    drop_all os (drop_object o w)
    ∙ ap (λ k. record w { collision_objects = k }) (without-remove_object os o w.collision_objects)

put_all :
    (os : List CollisionObject) (w : Subworld)
    → each put_object os w
      ≡ record w { collision_objects = (each put_object os w).collision_objects }
put_all [] w = refl
put_all (o ∷ os) w = put_all os (put_object o w)

-- No object of the list has the `node_id` of one of `gone`.
without-fresh :
    (gone os : List CollisionObject)
    → ((o : CollisionObject) → o ∈ os → is_among gone o.node_id ≡ false)
    → without gone os ≡ os
without-fresh gone [] h = refl
without-fresh gone (o ∷ os) h = rw (h o (inl refl), without-fresh gone os (λ p m. h p (inr m)))

is_among-apart :
    (id : ℕ) (os : List CollisionObject)
    → ((o : CollisionObject) → o ∈ os → id ≢ o.node_id)
    → is_among os id ≡ false
is_among-apart id [] h = refl
is_among-apart id (o ∷ os) h =
    rw (≢→== id o.node_id (h o (inl refl)), is_among-apart id os (λ p m. h p (inr m)))

if-none :
    (v : ℕ) (found : Bool) (o : Option ℕ)
    → (if found then some v else o) ≡ none
    → (found ≡ false) × (o ≡ none)
if-none v true o e = absurd (cc)
if-none v false o e = (refl, e)

erase-insert : (k v : ℕ) (m : Map ℕ ℕ) → lookup k m ≡ none → erase k (insert k v m) ≡ m
unfolding lookup erase insert
erase-insert k v [] e = rw (beq_refl k)
erase-insert k v ((j, u) ∷ m) e =
    let (apart, absent) = if-none u (j == k) (lookup k m) e in
    rw (apart, apart) (ap (λ n. (j, u) ∷ n) (erase-insert k v m absent))

abbrev note_entity : EntityNode → Subworld → Subworld
note_entity entity w = record w { entities = insert entity.entity_id entity.node w.entities }

abbrev forget_entity : EntityNode → Subworld → Subworld
forget_entity entity w = record w { entities = erase entity.entity_id w.entities }

-- The collision objects of the tree below a list of nodes, each before those below it; `size` counts the nodes.
pub data Below (nodes : Nodes) (object_at : ℕ → Option CollisionObject)
    : (size : ℕ) → List ℕ → List CollisionObject → Type 0 where
  none_left : Below nodes object_at 0 [] []
  first_child :
      {size_in size_out child : ℕ} {rest : List ℕ} {inner outer : List CollisionObject}
      → Below nodes object_at size_in (get_children child nodes) inner
      → Below nodes object_at size_out rest outer
      → Below nodes object_at
          (suc (size_in + size_out))
          (child ∷ rest)
          (object_list (object_at child) ++ (inner ++ outer))

module _ (nodes : Nodes) (object_at : ℕ → Option CollisionObject) where
  each-child :
      (change : CollisionObject → Subworld → Subworld) (child : ℕ)
      (inner outer : List CollisionObject) (w : Subworld)
      → each change (object_list (object_at child) ++ (inner ++ outer)) w
        ≡ each change outer (each change inner (if_object change (object_at child) w))
  each-child change child inner outer w =
      each-append change (object_list (object_at child)) (inner ++ outer) w
      ∙ each-append change inner outer (each change (object_list (object_at child)) w)
      ∙ ap (λ k. each change outer (each change inner k)) (each-object change (object_at child) w)

  add_children-each :
      (fuel : ℕ) {size : ℕ} {children : List ℕ} {objects : List CollisionObject} (w : Subworld)
      → size < fuel
      → Below nodes object_at size children objects
      → add_children nodes object_at fuel children w ≡ ok (each put_object objects w)
  unfolding add_children
  add_children-each zero w h b = absurd (omega (arith, h))
  add_children-each (suc fuel) w h none_left = refl
  add_children-each (suc fuel) w h
        (first_child {child = child} {inner = inner} {outer = outer} b c) =
      let v = if_object put_object (object_at child) w in
      rw
        (
          add_children-each fuel v (omega (arith, h)) b,
          add_children-each fuel (each put_object inner v) (omega (arith, h)) c,
        )
        (ap (λ k. ok k) (sym (each-child put_object child inner outer w)))

  remove_children-each :
      (fuel : ℕ) {size : ℕ} {children : List ℕ} {objects : List CollisionObject} (w : Subworld)
      → size < fuel
      → Below nodes object_at size children objects
      → remove_children nodes object_at fuel children w ≡ ok (each drop_object objects w)
  unfolding remove_children
  remove_children-each zero w h b = absurd (omega (arith, h))
  remove_children-each (suc fuel) w h none_left = refl
  remove_children-each (suc fuel) w h
        (first_child {child = child} {inner = inner} {outer = outer} b c) =
      let v = if_object drop_object (object_at child) w in
      rw
        (
          remove_children-each fuel v (omega (arith, h)) b,
          remove_children-each fuel (each drop_object inner v) (omega (arith, h)) c,
        )
        (ap (λ k. ok k) (sym (each-child drop_object child inner outer w)))

  restored :
      (objects : List CollisionObject) (entity : EntityNode) (w : Subworld)
      → lookup entity.entity_id w.entities ≡ none
      → ((o p : CollisionObject) → o ∈ w.collision_objects → p ∈ objects → o.node_id ≢ p.node_id)
      → forget_entity entity
          (each drop_object objects (note_entity entity (each put_object objects w)))
        ≡ w
  restored objects entity w absent fresh =
      let put = each put_object objects w in
      ap (λ k. forget_entity entity k) (drop_all objects (note_entity entity put))
      ∙ ap
          (λ k. forget_entity entity (record (note_entity entity k) {
            collision_objects = without objects k.collision_objects;
          }))
          (put_all objects w)
      ∙ ap
          (λ k. record w {
            collision_objects = k;
            entities = erase entity.entity_id (insert entity.entity_id entity.node w.entities);
          })
          (put_all-without objects objects w (λ o m. m)
            ∙ without-fresh objects w.collision_objects
                (λ o m. is_among-apart o.node_id objects (λ p n. fresh o p m n)))
      ∙ ap (λ k. record w { entities = k })
          (erase-insert entity.entity_id entity.node w.entities absent)

  -- An entity whose id the subworld does not have, with a tree of `size` nodes below it, none of whose collision
  -- objects the subworld has; on fuel above `size`: adding the entity ends, and its removal ends in the subworld as it
  -- was.
  pub remove_entity-add_entity :
      {size : ℕ} {objects : List CollisionObject} (fuel : ℕ) (entity : EntityNode) (w : Subworld)
      → size < fuel
      → Below nodes object_at size (get_children entity.node nodes) objects
      → lookup entity.entity_id w.entities ≡ none
      → ((o p : CollisionObject) → o ∈ w.collision_objects → p ∈ objects → o.node_id ≢ p.node_id)
      → (added : Subworld) × (add_entity nodes object_at fuel entity w ≡ ok added)
        × (remove_entity nodes object_at fuel entity added ≡ ok w)
  unfolding add_entity remove_entity
  remove_entity-add_entity {objects} fuel entity w h below absent fresh =
      let put = each put_object objects w in
      let added : Subworld = record put {
        entities = insert entity.entity_id entity.node put.entities;
      } in
      (
        added,
        rw (add_children-each fuel w h below),
        rw (remove_children-each fuel added h below)
            (ap (λ k. ok k) (restored objects entity w absent fresh)),
      )
