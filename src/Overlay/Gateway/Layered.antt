-- ===== src/Overlay/Gateway/Layered.antt =====
-- The overlay of two object stores is an object store: what it holds is what the overlay holds, and
-- else what the baseline holds.
use mathlib.Core.Path.{ap₂}
use overlay_s.Base.{
  Bool, Bytes, Option, Option-cases, ap, bytes_eq, false, if◌then◌else◌, inl, inr, none, refl, some,
  true, ℕ, ◌&&◌, ◌∙◌, ◌≡◌,
}
use overlay_s.Base.Exec.{Outcome, eq_not_found, err, err_not_found, no_return, ok}
use overlay_s.Overlay.Gateway.{get_with_fallback, head_with_fallback, overlay_store}
use overlay_s.Overlay.Listing.{Gateway, OverlayStore}
use overlay_s.Store.{ByteRange, ObjectMeta, Reader, Store}

-- What a call answers for an object that is there, or is not.
abbrev pub answer {ℓ κ} : {X : Type ℓ} {A : Type κ} → (X → A) → Option X → Outcome A
answer f none = err err_not_found
answer f (some x) = ok (f x)

-- Objects as stores keep them: what a GET and a HEAD answer, and which ones a PUT of a body with a
-- content type makes.
pub record Objects (X : Type 0) : Type 1 where
  pub serve : Bytes → Option ByteRange → X → Reader × ObjectMeta
  pub describe : Bytes → X → ObjectMeta
  pub made : Reader → Bytes → X → Type 0

-- The upper layer's object, or else the lower's.
abbrev pub over {ℓ} : {X : Type ℓ} → Option X → Option X → Option X
over none l = l
over (some v) l = some v

-- Two places of a store.
abbrev pub same_place : Bytes → Bytes → Bytes → Bytes → Bool
same_place b k b' k' = bytes_eq b b' && bytes_eq k k'

module _ {W : Type 0} {X : Type 0} (x : Objects X) where
  -- Reads answer from `holds`, with ErrNotFound where it holds nothing.
  pub record Reads (s : Store W) (holds : W → Bytes → Bytes → Option X) : Type 0 where
    pub get :
        (w : W) (b k : Bytes) (r : Option ByteRange)
        → (s.get b k r w).0 ≡ answer (x.serve k r) (holds w b k)
    pub head : (w : W) (b k : Bytes) → (s.head b k w).0 ≡ answer (x.describe k) (holds w b k)

  -- A PUT that succeeds holds an object made of its body there, and nothing else changes; one that
  -- fails changes nothing.
  abbrev pub Stored :
      (holds : W → Bytes → Bytes → Option X) (w w' : W) (b k : Bytes) (body : Reader) (ct : Bytes)
      → Outcome ObjectMeta
      → Type 0
  Stored holds w w' b k body ct (ok m) =
      (v : X) × x.made body ct v
      × ((b' k' : Bytes)
          → holds w' b' k' ≡ (if same_place b k b' k' then some v else holds w b' k'))
  Stored holds w w' b k body ct (err e) = (b' k' : Bytes) → holds w' b' k' ≡ holds w b' k'
  Stored holds w w' b k body ct no_return = (b' k' : Bytes) → holds w' b' k' ≡ holds w b' k'

  pub record Writes (s : Store W) (holds : W → Bytes → Bytes → Option X) : Type 0 where
    pub put :
        (w : W) (b k : Bytes) (body : Reader) (ct : Bytes)
        → Stored holds w (s.put b k body ct w).1 b k body ct (s.put b k body ct w).0

-- The calls of `s` leave alone what another store holds.
pub record Leaves {W X : Type 0} (s : Store W) (holds : W → Bytes → Bytes → Option X) : Type 0 where
  pub get : (w : W) (b k : Bytes) (r : Option ByteRange) → holds (s.get b k r w).1 ≡ holds w
  pub head : (w : W) (b k : Bytes) → holds (s.head b k w).1 ≡ holds w
  pub put :
      (w : W) (b k : Bytes) (body : Reader) (ct : Bytes) → holds (s.put b k body ct w).1 ≡ holds w

module _ {W X : Type 0} (x : Objects X) (now : W → ℕ) (fuel : ℕ) (o : OverlayStore W)
    (upper lower : W → Bytes → Bytes → Option X) where
  -- The view of both layers.
  abbrev pub layered : Gateway W → Bytes → Bytes → Option X
  layered g b k = over (upper g.world b k) (lower g.world b k)

  get_layered :
      (w : W) (b k : Bytes) (r : Option ByteRange)
      → Reads x o.overlay upper
      → Reads x o.baseline lower
      → lower (o.overlay.get b k r w).1 ≡ lower w
      → (get_with_fallback o b k r w).0 ≡ answer (x.serve k r) (over (upper w b k) (lower w b k))
  unfolding get_with_fallback eq_not_found
  get_layered w b k r up low leaves = elim (Option-cases (upper w b k)) [
    | inl absent ↦
        rw (up.get w b k r, absent)
          (low.get _ b k r ∙ ap (λ holds. answer (x.serve k r) (holds b k)) leaves)
    | inr (v, present) ↦ rw (up.get w b k r, present)
  ]

  head_layered :
      (w : W) (b k : Bytes)
      → Reads x o.overlay upper
      → Reads x o.baseline lower
      → lower (o.overlay.head b k w).1 ≡ lower w
      → (head_with_fallback o b k w).0 ≡ answer (x.describe k) (over (upper w b k) (lower w b k))
  unfolding head_with_fallback eq_not_found
  head_layered w b k up low leaves = elim (Option-cases (upper w b k)) [
    | inl absent ↦
        rw (up.head w b k, absent)
          (low.head _ b k ∙ ap (λ holds. answer (x.describe k) (holds b k)) leaves)
    | inr (v, present) ↦ rw (up.head w b k, present)
  ]

  -- GET and HEAD of the gateway answer from the layered view, with ErrNotFound where neither layer
  -- holds the key. Each store must answer so from what it holds itself, and the overlay's calls
  -- must leave what the baseline holds.
  pub layered-Reads :
      Reads x o.overlay upper
      → Reads x o.baseline lower
      → Leaves o.overlay lower
      → Reads x (overlay_store now fuel o) layered
  unfolding overlay_store
  layered-Reads up low leaves = record {
    get = λ g b k r. get_layered g.world b k r up low (leaves.get g.world b k r);
    head = λ g b k. head_layered g.world b k up low (leaves.head g.world b k);
  }

  over_if :
      (c : Bool) (v : X) (u l : Option X)
      → over (if c then some v else u) l ≡ (if c then some v else over u l)
  over_if true v u l = refl
  over_if false v u l = refl

  module _ (g g' : Gateway W) (b k : Bytes) (body : Reader) (ct : Bytes)
      (leaves : lower g'.world ≡ lower g.world) where
    lower_same : (b' k' : Bytes) → lower g'.world b' k' ≡ lower g.world b' k'
    lower_same b' k' = ap (λ holds. holds b' k') leaves

    Stored-layered :
        (r : Outcome ObjectMeta)
        → Stored x upper g.world g'.world b k body ct r
        → Stored x layered g g' b k body ct r
    Stored-layered (ok m) (v, made, law) = (
      v,
      made,
      λ b' k'. ap₂ over (law b' k') (lower_same b' k') ∙ over_if (same_place b k b' k') v _ _,
    )
    Stored-layered (err e) same = λ b' k'. ap₂ over (same b' k') (lower_same b' k')
    Stored-layered no_return same = λ b' k'. ap₂ over (same b' k') (lower_same b' k')

  -- A PUT of the gateway changes the layered view at its own key alone, and not at all when it
  -- fails. The overlay's PUT must do so on what it holds, and its calls must leave what the
  -- baseline holds.
  pub layered-Writes :
      Writes x o.overlay upper
      → Leaves o.overlay lower
      → Writes x (overlay_store now fuel o) layered
  unfolding overlay_store
  layered-Writes up leaves = record {
    put = λ g b k body ct.
        Stored-layered g (record g { world = (o.overlay.put b k body ct g.world).1 }) b k body ct
          (leaves.put g.world b k body ct) (o.overlay.put b k body ct g.world).0
          (up.put g.world b k body ct);
  }
