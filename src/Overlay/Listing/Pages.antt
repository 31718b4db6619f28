-- ===== src/Overlay/Listing/Pages.antt =====
-- ListPage against the merged listing: what a page shows, and what its token resumes.
use overlay_s.Base.{
  Bool, List, Option, [], ap, append-nil, append_assoc, arith, is_nil, is_some, none, not, refl,
  some, sym, ℕ, ◌&&◌, ◌++◌, ◌∷◌, ◌≡◌,
}
use overlay_s.Base.Exec.{Outcome, continue, err, no_return, ok, pure}
use overlay_s.Overlay.Cursor.{ListCursor, ListSource, peek}
use overlay_s.Overlay.Cursor.Stream.{Peeked, Remains, peek_lem}
use overlay_s.Overlay.Entries.{
  ListEntry, append_entry, common_prefix, object, objects_of, prefixes_of,
}
use overlay_s.Overlay.Listing.{peek_more, peek_other}
use overlay_s.Overlay.Listing.Merge.{Merges}
use overlay_s.Overlay.Listing.Merged.{append_entries, overlay_merge}
use overlay_s.Store.{ListPage}

pub objects_of-append :
    (xs ys : List ListEntry) → objects_of (xs ++ ys) ≡ objects_of xs ++ objects_of ys
unfolding objects_of
objects_of-append [] ys = refl
objects_of-append (object o ∷ xs) ys = ap (◌∷◌ o) (objects_of-append xs ys)
objects_of-append (common_prefix p ∷ xs) ys = objects_of-append xs ys

pub prefixes_of-append :
    (xs ys : List ListEntry) → prefixes_of (xs ++ ys) ≡ prefixes_of xs ++ prefixes_of ys
unfolding prefixes_of
prefixes_of-append [] ys = refl
prefixes_of-append (object o ∷ xs) ys = prefixes_of-append xs ys
prefixes_of-append (common_prefix p ∷ xs) ys = ap (◌∷◌ p) (prefixes_of-append xs ys)

pub objects-append_entries :
    (es : List ListEntry) (out : ListPage)
    → (append_entries out es).objects ≡ out.objects ++ objects_of es
unfolding append_entries append_entry objects_of
objects-append_entries [] out = sym (append-nil out.objects)
objects-append_entries (object o ∷ es) out =
    rw (objects-append_entries es) (append_assoc out.objects (o ∷ []) (objects_of es))
objects-append_entries (common_prefix p ∷ es) out = rw (objects-append_entries es)

pub prefixes-append_entries :
    (es : List ListEntry) (out : ListPage)
    → (append_entries out es).common_prefixes ≡ out.common_prefixes ++ prefixes_of es
unfolding append_entries append_entry prefixes_of
prefixes-append_entries [] out = sym (append-nil out.common_prefixes)
prefixes-append_entries (object o ∷ es) out = rw (prefixes-append_entries es)
prefixes-append_entries (common_prefix p ∷ es) out =
    rw (prefixes-append_entries es) (append_assoc out.common_prefixes (p ∷ []) (prefixes_of es))

pub truncated-append_entries :
    (es : List ListEntry) (out : ListPage) → (append_entries out es).truncated ≡ out.truncated
unfolding append_entries append_entry
truncated-append_entries [] out = refl
truncated-append_entries (object o ∷ es) out = rw (truncated-append_entries es)
truncated-append_entries (common_prefix p ∷ es) out = rw (truncated-append_entries es)

is_nil-merge : (xs ys : List ListEntry) → is_nil (overlay_merge xs ys) ≡ (is_nil xs && is_nil ys)
unfolding overlay_merge
is_nil-merge [] ys = refl
is_nil-merge (x ∷ xs) [] = refl
is_nil-merge (x ∷ xs) (y ∷ ys) = ground arith

module _ {W : Type 0} (os bs : ListSource W) (fuel : ℕ) where
  -- Whether the peeks at the end find more of `es`.
  abbrev pub MorePeeked : List ListEntry → Outcome (Bool × ListCursor × ListCursor) → Type 0
  MorePeeked es (ok (found, oc, bc)) = (found ≡ not (is_nil es)) × Merges os bs fuel oc bc es
  MorePeeked es (err e) = ⊥
  MorePeeked es no_return = ⊥

  module _ (xs ys : List ListEntry) where
    peek_baseline :
        (oc : ListCursor) (b : Outcome (ListCursor × Option ListEntry)) (w : W)
        → xs ≡ []
        → Remains os fuel oc xs
        → Peeked bs fuel ys b
        → MorePeeked (overlay_merge xs ys) (continue b (λ b. pure (is_some b.1, oc, b.0)) w).0
    peek_baseline oc (ok (bc, some y)) w ex ro (later, ey, rb, rb') = (
      rw (is_nil-merge, ex, ey),
      record {
        overlay_rest = xs;
        baseline_rest = ys;
        merged = refl;
        overlay_remains = ro;
        baseline_remains = rb;
      },
    )
    peek_baseline oc (ok (bc, none)) w ex ro (ey, rb) = (
      rw (is_nil-merge, ex, ey),
      record {
        overlay_rest = xs;
        baseline_rest = ys;
        merged = refl;
        overlay_remains = ro;
        baseline_remains = rb;
      },
    )
    peek_baseline oc (err e) w ex ro h = h
    peek_baseline oc no_return w ex ro h = h

    peek_overlay :
        (bc : ListCursor) (o : Outcome (ListCursor × Option ListEntry)) (w : W)
        → Peeked os fuel xs o
        → Remains bs fuel bc ys
        → MorePeeked (overlay_merge xs ys) (continue o (λ o. peek_other os bs fuel bc o.0 o.1) w).0
    peek_overlay bc (ok (oc, some x)) w (later, ex, ro, ro') rb = (
      rw (is_nil-merge, ex),
      record {
        overlay_rest = xs;
        baseline_rest = ys;
        merged = refl;
        overlay_remains = ro;
        baseline_remains = rb;
      },
    )
    peek_overlay bc (ok (oc, none)) w (ex, ro) rb =
        peek_baseline oc (peek bs fuel bc w).0 (peek bs fuel bc w).1 ex ro
          (peek_lem bs fuel bc ys w rb)
    peek_overlay bc (err e) w h rb = h
    peek_overlay bc no_return w h rb = h

  pub peek_more_lem :
      (oc bc : ListCursor) (es : List ListEntry) (w : W)
      → Merges os bs fuel oc bc es
      → MorePeeked es (peek_more os bs fuel oc bc w).0
  unfolding peek_more
  peek_more_lem oc bc es w m = rw m.merged (
      peek_overlay m.overlay_rest m.baseline_rest bc (peek os fuel oc w).0 (peek os fuel oc w).1
        (peek_lem os fuel oc m.overlay_rest w m.overlay_remains) m.baseline_remains)
