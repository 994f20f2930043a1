-- ===== src/Core/Requests/Frame.antt =====
-- accelerator/core/core.c, accelerator/core/periodical_task.c: what a change at one UUID and at the two lists
-- leaves of the requests that a database shows.
use tangle_accelerator.Base.{Bytes, List, [], ◌∷◌, ◌++◌, All, ◌≡◌, ◌≢◌, sym, subst, ◌∙◌}
use tangle_accelerator.Env.{Env}
use tangle_accelerator.Env.Laws.{RedisLaws}
use tangle_accelerator.Core.Buffer.{TaCache}
use tangle_accelerator.Core.Requests.{Request, Stands, Fresh, Unique}

module _ {e : Env} (r : RedisLaws e) (cache : TaCache) where
  -- `w'` is `w` but for the lists under `u` and the two names.
  pub record ChangedAt (u : Bytes) (w w' : e.World) : Type 0 where
    pub items_kept :
        (j : Bytes)
        → u ≢ j
        → cache.buffer_list_name ≢ j
        → cache.complete_list_name ≢ j
        → r.items w' j ≡ r.items w j
    pub strings_kept : (j : Bytes) → r.strings w' j ≡ r.strings w j

  Stands-kept :
      (u : Bytes) (w w' : e.World) (x : Request)
      → ChangedAt u w w'
      → u ≢ x.id
      → Stands r cache w x
      → Stands r cache w' x
  Stands-kept u w w' x c f s = record {
    id_text = s.id_text;
    id_length = s.id_length;
    not_buffer = s.not_buffer;
    not_complete = s.not_complete;
    no_string = c.strings_kept x.id ∙ s.no_string;
    bundle =
        c.items_kept x.id f (λ p. s.not_buffer (sym p)) (λ p. s.not_complete (sym p)) ∙ s.bundle;
  }

  -- All other requests stand as before.
  pub Stands-All :
      (u : Bytes) (w w' : e.World) (xs : List Request)
      → ChangedAt u w w'
      → Fresh u xs
      → All (Stands r cache w) xs
      → All (Stands r cache w') xs
  Stands-All u w w' [] c f s = tt
  Stands-All u w w' (x ∷ xs) c f s =
      (Stands-kept u w w' x c f.0 s.0, Stands-All u w w' xs c f.1 s.1)

pub Fresh-left : (u : Bytes) (xs ys : List Request) → Fresh u (xs ++ ys) → Fresh u xs
Fresh-left u [] ys f = tt
Fresh-left u (x ∷ xs) ys f = (f.0, Fresh-left u xs ys f.1)

pub Fresh-right : (u : Bytes) (xs ys : List Request) → Fresh u (xs ++ ys) → Fresh u ys
Fresh-right u [] ys f = f
Fresh-right u (x ∷ xs) ys f = Fresh-right u xs ys f.1

pub Fresh-append : (u : Bytes) (xs ys : List Request) → Fresh u xs → Fresh u ys → Fresh u (xs ++ ys)
Fresh-append u [] ys f g = g
Fresh-append u (x ∷ xs) ys f g = (f.0, Fresh-append u xs ys f.1 g)

-- A request may move from one end of the unique list to the middle.
pub Unique-moves :
    (x y : Request) (xs ys : List Request)
    → x.id ≡ y.id
    → Unique (x ∷ xs ++ ys)
    → Unique (xs ++ y ∷ ys)
Unique-moves x y [] ys p u = (subst (λ i. Fresh i ys) p u.0, u.1)
Unique-moves x y (z ∷ xs) ys p u = (
  Fresh-append z.id xs (y ∷ ys) (Fresh-left z.id xs ys u.1.0)
      ((λ q. u.0.0 (p ∙ sym q)), Fresh-right z.id xs ys u.1.0),
  Unique-moves x y xs ys p (u.0.1, u.1.1),
)

pub Unique-drops : (x : Request) (xs ys : List Request) → Unique (xs ++ x ∷ ys) → Unique (xs ++ ys)
Unique-drops x [] ys u = u.1
Unique-drops x (z ∷ xs) ys u = (
  Fresh-append z.id xs ys (Fresh-left z.id xs (x ∷ ys) u.0) (Fresh-right z.id xs (x ∷ ys) u.0).1,
  Unique-drops x xs ys u.1,
)

-- The middle one is different from all others.
pub Fresh-middle :
    (x : Request) (xs ys : List Request) → Unique (xs ++ x ∷ ys) → Fresh x.id xs × Fresh x.id ys
Fresh-middle x [] ys u = (tt, u.0)
Fresh-middle x (z ∷ xs) ys u =
    let rest = Fresh-middle x xs ys u.1 in
    ((λ p. (Fresh-right z.id xs (x ∷ ys) u.0).0 (sym p), rest.0), rest.1)
