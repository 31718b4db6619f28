-- ===== src/Overlay/Listing/Merge.antt =====
-- The loop of ListPage against the merge of two whole listings.
use overlay_s.Base.{
  Bool-cases, List, Option, [], arith, bytes_eq, bytes_le, drop, false, inl, inr, length, none,
  refl, some, suc, take, true, zero, ℕ, ◌<◌, ◌∷◌, ◌≡◌, ◌≤◌,
}
use overlay_s.Base.Exec.{Exec, Outcome, continue, err, no_return, ok, ◌>>=◌}
use overlay_s.Overlay.Cursor.{ListCursor, ListSource, next, peek}
use overlay_s.Overlay.Cursor.Stream.{Peeked, Remains, peek_lem}
use overlay_s.Overlay.Entries.{ListEntry, append_entry, entry_key}
use overlay_s.Overlay.Listing.{
  LoopEnd, Round, choose, end_round, filled, go_on, merge_loop, returned, stop,
}
use overlay_s.Overlay.Listing.Merged.{
  append_entries, merge-nil, merge_baseline, merge_overlay, merge_tie, overlay_merge,
}
use overlay_s.Store.{ListPage}

module _ {W : Type 0} (os bs : ListSource W) (fuel : ℕ) where
  -- The two cursors together have the merged entries `es` before them.
  pub record Merges (oc bc : ListCursor) (es : List ListEntry) : Type 0 where
    pub overlay_rest : List ListEntry
    pub baseline_rest : List ListEntry
    pub merged : es ≡ overlay_merge overlay_rest baseline_rest
    pub overlay_remains : Remains os fuel oc overlay_rest
    pub baseline_remains : Remains bs fuel bc baseline_rest

  -- What one round does with `es` before the cursors.
  abbrev Chosen : List ListEntry → Round → Type 0
  Chosen es stop = es ≡ []
  Chosen es (go_on oc bc e) = (later : List ListEntry) × (es ≡ e ∷ later) × Merges oc bc later

  module _ (oc bc : ListCursor) (x y : ListEntry) (xs ys xs' ys' : List ListEntry)
      (ex : xs ≡ x ∷ xs') (ey : ys ≡ y ∷ ys') where
    choose_tie :
        bytes_le (entry_key x) (entry_key y) ≡ true
        → bytes_eq (entry_key x) (entry_key y) ≡ true
        → Remains os fuel (next oc) xs'
        → Remains bs fuel (next bc) ys'
        → Chosen (overlay_merge xs ys) (choose oc bc (some x) (some y))
    unfolding choose
    choose_tie le eq rx ry =
        rw (le, eq)
          (
            overlay_merge xs' ys',
            rw (ex, ey) (merge_tie x y xs' ys' le eq),
            record {
              overlay_rest = xs';
              baseline_rest = ys';
              merged = refl;
              overlay_remains = rx;
              baseline_remains = ry;
            },
          )

    choose_overlay :
        bytes_le (entry_key x) (entry_key y) ≡ true
        → bytes_eq (entry_key x) (entry_key y) ≡ false
        → Remains os fuel (next oc) xs'
        → Remains bs fuel bc ys
        → Chosen (overlay_merge xs ys) (choose oc bc (some x) (some y))
    unfolding choose
    choose_overlay le ne rx ry =
        rw (le, ne)
          (
            overlay_merge xs' ys,
            rw (ex, ey) (merge_overlay x y xs' ys' le ne),
            record {
              overlay_rest = xs';
              baseline_rest = ys;
              merged = refl;
              overlay_remains = rx;
              baseline_remains = ry;
            },
          )

    choose_baseline :
        bytes_le (entry_key x) (entry_key y) ≡ false
        → Remains os fuel oc xs
        → Remains bs fuel (next bc) ys'
        → Chosen (overlay_merge xs ys) (choose oc bc (some x) (some y))
    unfolding choose
    choose_baseline gt rx ry = rw gt (
      overlay_merge xs ys',
      rw (ex, ey) (merge_baseline x y xs' ys' gt),
      record {
        overlay_rest = xs;
        baseline_rest = ys';
        merged = refl;
        overlay_remains = rx;
        baseline_remains = ry;
      },
    )

  choose_lem :
      (oc bc : ListCursor) (o b : Option ListEntry) (xs ys : List ListEntry)
      → Peeked os fuel xs (ok (oc, o))
      → Peeked bs fuel ys (ok (bc, b))
      → Chosen (overlay_merge xs ys) (choose oc bc o b)
  unfolding choose
  choose_lem oc bc none none xs ys (ex, rx) (ey, ry) = unfold overlay_merge in rw (ex, ey)
  choose_lem oc bc none (some y) xs ys (ex, rx) (ys', ey, ry, ry') = (
    ys',
    unfold overlay_merge in rw (ex, ey),
    record {
      overlay_rest = xs;
      baseline_rest = ys';
      merged = unfold overlay_merge in rw ex;
      overlay_remains = rx;
      baseline_remains = ry';
    },
  )
  choose_lem oc bc (some x) none xs ys (xs', ex, rx, rx') (ey, ry) = (
    xs',
    unfold overlay_merge in rw (ex, ey),
    record {
      overlay_rest = xs';
      baseline_rest = ys;
      merged = rw (ey, merge-nil);
      overlay_remains = rx';
      baseline_remains = ry;
    },
  )
  choose_lem oc bc (some x) (some y) xs ys (xs', ex, rx, rx') (ys', ey, ry, ry') =
      elim (Bool-cases (bytes_le (entry_key x) (entry_key y))) [
        | inl le ↦ elim (Bool-cases (bytes_eq (entry_key x) (entry_key y))) [
          | inl eq ↦ choose_tie oc bc x y xs ys xs' ys' ex ey le eq rx' ry'
          | inr ne ↦ choose_overlay oc bc x y xs ys xs' ys' ex ey le ne rx' ry
        ]
        | inr gt ↦ choose_baseline oc bc x y xs ys xs' ys' ex ey gt rx ry'
      ]

  -- How the loop ends with `left` rounds to go: on all of `es`, or on its first `left` entries with
  -- the rest before the cursors.
  abbrev pub Filled : ℕ → ListPage → List ListEntry → Outcome LoopEnd → Type 0
  Filled left out es (ok (returned page)) = (page ≡ append_entries out es) × (length es < left)
  Filled left out es (ok (filled oc bc page)) =
      (page ≡ append_entries out (take left es)) × (left ≤ length es) × Merges oc bc (drop left es)
  Filled left out es (err e) = ⊥
  Filled left out es no_return = ⊥

  Filled-cons :
      (left : ℕ) (out : ListPage) (e : ListEntry) (later : List ListEntry) (r : Outcome LoopEnd)
      → Filled left (append_entry out e) later r
      → Filled (suc left) out (e ∷ later) r
  unfolding append_entries
  Filled-cons left out e later (ok (returned page)) (p, short) = (p, omega arith)
  Filled-cons left out e later (ok (filled oc bc page)) (p, long, m) = (p, omega arith, m)
  Filled-cons left out e later (err x) h = h
  Filled-cons left out e later no_return h = h

  module _ (left : ℕ) (out : ListPage)
      (again : (oc bc : ListCursor) (out' : ListPage) (es : List ListEntry) (w : W)
        → Merges oc bc es
        → Filled left out' es (merge_loop os bs fuel left oc bc out' w).0) where
    abbrev ended : Round → Exec W LoopEnd
    ended = end_round os bs fuel (merge_loop os bs fuel left) out

    end_round_lem :
        (es : List ListEntry) (r : Round) (w : W)
        → Chosen es r
        → Filled (suc left) out es (ended r w).0
    end_round_lem es stop w h = unfold append_entries in rw h (refl, omega arith)
    end_round_lem es (go_on oc bc e) w (later, h, m) = rw h (
        Filled-cons left out e later (merge_loop os bs fuel left oc bc (append_entry out e) w).0
          (again oc bc (append_entry out e) later w m))

    after_baseline :
        (oc : ListCursor) (o : Option ListEntry) (xs ys : List ListEntry)
        (b : Outcome (ListCursor × Option ListEntry)) (w : W)
        → Peeked os fuel xs (ok (oc, o))
        → Peeked bs fuel ys b
        → Filled
            (suc left)
            out
            (overlay_merge xs ys)
            (continue b (λ b. ended (choose oc b.0 o b.1)) w).0
    after_baseline oc o xs ys (ok (bc, b)) w ho hb =
        end_round_lem (overlay_merge xs ys) (choose oc bc o b) w (choose_lem oc bc o b xs ys ho hb)
    after_baseline oc o xs ys (err e) w ho hb = elim hb [ ]
    after_baseline oc o xs ys no_return w ho hb = elim hb [ ]

    after_overlay :
        (bc : ListCursor) (xs ys : List ListEntry) (o : Outcome (ListCursor × Option ListEntry))
        (w : W)
        → Peeked os fuel xs o
        → Remains bs fuel bc ys
        → Filled
            (suc left)
            out
            (overlay_merge xs ys)
            (continue o (λ o. peek bs fuel bc >>= λ b. ended (choose o.0 b.0 o.1 b.1)) w).0
    after_overlay bc xs ys (ok (oc, o)) w ho hb =
        after_baseline oc o xs ys (peek bs fuel bc w).0 (peek bs fuel bc w).1 ho
          (peek_lem bs fuel bc ys w hb)
    after_overlay bc xs ys (err e) w ho hb = elim ho [ ]
    after_overlay bc xs ys no_return w ho hb = elim ho [ ]

  pub merge_loop_lem :
      (left : ℕ) (oc bc : ListCursor) (out : ListPage) (es : List ListEntry) (w : W)
      → Merges oc bc es
      → Filled left out es (merge_loop os bs fuel left oc bc out w).0
  unfolding merge_loop append_entries
  merge_loop_lem zero oc bc out es w m = (refl, omega arith, m)
  merge_loop_lem (suc left) oc bc out es w m = rw m.merged (
      after_overlay left out (merge_loop_lem left) bc m.overlay_rest m.baseline_rest
        (peek os fuel oc w).0 (peek os fuel oc w).1
        (peek_lem os fuel oc m.overlay_rest w m.overlay_remains) m.baseline_remains)
