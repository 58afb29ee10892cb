-- ===== src/Subworld/Collisions.antt =====
-- What the contacts are after a tick, and which objects the queries return.
use tower_main.Common.{
  ℕ, ◌≡◌, ◌≢◌, refl, sym, ap, subst, ◌∙◌, ◌↔◌, inl, inr, Bool, true, false, ◌&&◌, if◌then◌else◌,
  List, [], ◌∷◌, ◌==◌, nat_eq, beq_refl, Bool-cases, ◌∈◌, arith,
}
use Prim.Native.Nat.{bit_and}
use tower_main.Subworld.{
  CollisionObject, Subworld, is_colliding, update_contact, update_bodies, update_areas,
  update_contacts, collisions_of, collisions_with,
}

-- No two objects of the list have the same `node_id`.
abbrev pub Distinct : List CollisionObject → Type 0
Distinct [] = Unit
Distinct (o ∷ os) =
    ((other : CollisionObject) → other ∈ os → o.node_id ≢ other.node_id) × Distinct os

module _ (shapes_touch : ℕ → ℕ → Bool) where
  -- The visit of a pair notes whether it collides, and leaves all other contacts alone.
  update_contact-contacts :
      (area body : CollisionObject) (w : Subworld) (a b : ℕ)
      → (update_contact shapes_touch area body w).contacts a b ≡ (
          if a == area.node_id && b == body.node_id
          then is_colliding shapes_touch area body
          else w.contacts a b)
  unfolding update_contact
  update_contact-contacts area body w a b = ground arith

  -- `Subworld::get_collisions` of a shape and a mask returns exactly the objects on a layer of the mask whose shapes
  -- touch the shape.
  pub mem-collisions_with :
      (target_shape mask : ℕ) (objects : List CollisionObject) (o : CollisionObject)
      → (o ∈ collisions_with shapes_touch target_shape mask objects) ↔ (
          (o ∈ objects)
          × ((bit_and mask o.layer == 0) ≡ false)
          × (shapes_touch o.shape target_shape ≡ true))
  unfolding collisions_with
  mem-collisions_with target_shape mask [] o = (λ m. absurd m, λ m. m.0)
  mem-collisions_with target_shape mask (c ∷ rest) o =
      let more = mem-collisions_with target_shape mask rest o in
      elim (Bool-cases (bit_and mask c.layer == 0)) [
        | inl t ↦ rw t (
          λ m. (inr (more.0 m).0, (more.0 m).1, (more.0 m).2),
          λ m. more.1 (
            elim m.0 [
              | inl e ↦
                  (let f = ap (λ (x : CollisionObject). bit_and mask x.layer == 0) e in
                    absurd (cc (f, t, m.1)))
              | inr later ↦ later
            ],
            m.1,
            m.2,
          ),
        )
        | inr t ↦ elim (Bool-cases (shapes_touch c.shape target_shape)) [
          | inr u ↦
              rw (t, u)
                (
                  λ m. (inr (more.0 m).0, (more.0 m).1, (more.0 m).2),
                  λ m. more.1 (
                    elim m.0 [
                      | inl e ↦
                          (let f =
                              ap (λ (x : CollisionObject). shapes_touch x.shape target_shape) e in
                            absurd (cc (f, u, m.2)))
                      | inr later ↦ later
                    ],
                    m.1,
                    m.2,
                  ),
                )
          | inl u ↦
              rw (t, u)
                (
                  elim [
                    | inl e ↦ (
                      inl e,
                      ap (λ (x : CollisionObject). bit_and mask x.layer == 0) e ∙ t,
                      ap (λ (x : CollisionObject). shapes_touch x.shape target_shape) e ∙ u,
                    )
                    | inr later ↦ (inr (more.0 later).0, (more.0 later).1, (more.0 later).2)
                  ],
                  λ m. elim m.0 [ inl e ↦ inl e | inr later ↦ inr (more.1 (later, m.1, m.2)) ],
                )
        ]
      ]

  -- `Subworld::get_collisions` of a collider returns exactly the objects that do not collide with it.
  pub mem-collisions_of :
      (collider : CollisionObject) (objects : List CollisionObject) (o : CollisionObject)
      → (o ∈ collisions_of shapes_touch collider objects)
        ↔ ((o ∈ objects) × (is_colliding shapes_touch collider o ≡ false))
  unfolding collisions_of
  mem-collisions_of collider [] o = (λ m. absurd m, λ m. m.0)
  mem-collisions_of collider (c ∷ rest) o =
      let more = mem-collisions_of collider rest o in
      elim (Bool-cases (is_colliding shapes_touch collider c)) [
        | inl t ↦ rw t (
          λ m. (inr (more.0 m).0, (more.0 m).1),
          λ m. more.1 (
            elim m.0 [
              | inl e ↦ (let f = ap (is_colliding shapes_touch collider) e in absurd (cc))
              | inr later ↦ later
            ],
            m.1,
          ),
        )
        | inr t ↦ rw t (
          elim [
            | inl e ↦ (inl e, ap (is_colliding shapes_touch collider) e ∙ t)
            | inr later ↦ (inr (more.0 later).0, (more.0 later).1)
          ],
          λ m. elim m.0 [ inl e ↦ inl e | inr later ↦ inr (more.1 (later, m.1)) ],
        )
      ]

  update_contact-objects :
      (area body : CollisionObject) (w : Subworld)
      → (update_contact shapes_touch area body w).collision_objects ≡ w.collision_objects
  unfolding update_contact
  update_contact-objects area body w = ground arith

  update_contact-other :
      (area body : CollisionObject) (w : Subworld) (a b : ℕ)
      → ¬ ((a ≡ area.node_id) × (b ≡ body.node_id))
      → (update_contact shapes_touch area body w).contacts a b ≡ w.contacts a b
  update_contact-other area body w a b h = update_contact-contacts area body w a b ∙ ground arith

  update_contact-same :
      (area body : CollisionObject) (w : Subworld)
      → (update_contact shapes_touch area body w).contacts area.node_id body.node_id
        ≡ is_colliding shapes_touch area body
  update_contact-same area body w =
      update_contact-contacts area body w area.node_id body.node_id
      ∙ rw (beq_refl area.node_id, beq_refl body.node_id)

  update_bodies-objects :
      (area : CollisionObject) (bodies : List CollisionObject) (w : Subworld)
      → (update_bodies shapes_touch area bodies w).collision_objects ≡ w.collision_objects
  unfolding update_bodies
  update_bodies-objects area [] w = refl
  update_bodies-objects area (body ∷ bodies) w =
      update_bodies-objects area bodies (update_contact shapes_touch area body w)
      ∙ update_contact-objects area body w

  update_bodies-other :
      (area : CollisionObject) (bodies : List CollisionObject) (w : Subworld) (a b : ℕ)
      → ((o : CollisionObject) → o ∈ bodies → ¬ ((a ≡ area.node_id) × (b ≡ o.node_id)))
      → (update_bodies shapes_touch area bodies w).contacts a b ≡ w.contacts a b
  unfolding update_bodies
  update_bodies-other area [] w a b h = refl
  update_bodies-other area (body ∷ bodies) w a b h =
      update_bodies-other area bodies (update_contact shapes_touch area body w) a b
        (λ o m. h o (inr m))
      ∙ update_contact-other area body w a b (h body (inl refl))

  update_bodies-same :
      (area : CollisionObject) (bodies : List CollisionObject) (w : Subworld) (o : CollisionObject)
      → Distinct bodies
      → o ∈ bodies
      → (update_bodies shapes_touch area bodies w).contacts area.node_id o.node_id
        ≡ is_colliding shapes_touch area o
  unfolding update_bodies
  update_bodies-same area [] w o d m = absurd m
  update_bodies-same area (body ∷ bodies) w o d (inr m) =
      update_bodies-same area bodies (update_contact shapes_touch area body w) o d.1 m
  update_bodies-same area (body ∷ bodies) w o d (inl e) =
      subst
        (λ (x : CollisionObject).
          (update_bodies shapes_touch area bodies
              (update_contact shapes_touch area body w)).contacts
            area.node_id x.node_id
          ≡ is_colliding shapes_touch area x)
        (sym e)
        (update_bodies-other area bodies (update_contact shapes_touch area body w) area.node_id
            body.node_id (λ x m h. d.0 x m h.1)
          ∙ update_contact-same area body w)

  update_areas-other :
      (areas : List CollisionObject) (w : Subworld) (a b : ℕ)
      → ((area : CollisionObject) → area ∈ areas → a ≢ area.node_id)
      → (update_areas shapes_touch areas w).contacts a b ≡ w.contacts a b
  unfolding update_areas
  update_areas-other [] w a b h = refl
  update_areas-other (area ∷ areas) w a b h =
      update_areas-other areas (update_bodies shapes_touch area w.collision_objects w) a b
        (λ x m. h x (inr m))
      ∙ update_bodies-other area w.collision_objects w a b (λ o m e. h area (inl refl) e.0)

  update_areas-same :
      (areas : List CollisionObject) (w : Subworld) (area body : CollisionObject)
      → Distinct areas
      → Distinct w.collision_objects
      → area ∈ areas
      → body ∈ w.collision_objects
      → (update_areas shapes_touch areas w).contacts area.node_id body.node_id
        ≡ is_colliding shapes_touch area body
  unfolding update_areas
  update_areas-same [] w area body d objects m there = absurd m
  update_areas-same (first ∷ areas) w area body d objects (inr m) there =
      let same = update_bodies-objects first w.collision_objects w in
      update_areas-same areas (update_bodies shapes_touch first w.collision_objects w) area body d.1
        (subst Distinct (sym same) objects) m (subst (λ os. body ∈ os) (sym same) there)
  update_areas-same (first ∷ areas) w area body d objects (inl e) there =
      subst
        (λ (x : CollisionObject).
          (update_areas shapes_touch areas
              (update_bodies shapes_touch first w.collision_objects w)).contacts
            x.node_id body.node_id
          ≡ is_colliding shapes_touch x body)
        (sym e)
        (update_areas-other areas (update_bodies shapes_touch first w.collision_objects w)
            first.node_id body.node_id (λ x m. d.0 x m)
          ∙ update_bodies-same first w.collision_objects w body objects there)

  -- If no two areas and no two objects share a `node_id`: after the contacts are updated, an object is in the contacts
  -- of an area exactly if the area collides with it.
  pub contacts-colliding :
      (w : Subworld) (area body : CollisionObject)
      → Distinct w.collision_areas
      → Distinct w.collision_objects
      → area ∈ w.collision_areas
      → body ∈ w.collision_objects
      → (update_contacts shapes_touch w).contacts area.node_id body.node_id
        ≡ is_colliding shapes_touch area body
  unfolding update_contacts
  contacts-colliding w area body d objects m there =
      update_areas-same w.collision_areas w area body d objects m there
