-- ===== src/Overlay/Gateway/Calls.antt =====
-- What the gateway's calls are made of: a claim that holds of the two stores' calls holds of its own.
use overlay_s.Base.{Bool, Bytes, List, Option, false, none, some, suc, true, zero, ℕ, ℤ}
use overlay_s.Base.Exec.{Error, Exec, eq_not_found, ok, raise}
use overlay_s.Base.Exec.Rules.{
  Claim, Follows, bind-Follows, if-Follows, pure-Follows, raise-Follows, try-Follows,
}
use overlay_s.Overlay.Cursor.{ListCursor, ListSource, load, peek}
use overlay_s.Overlay.Entries.{ListEntry, append_entry}
use overlay_s.Overlay.Gateway.{
  exists_in_either, fall_back, get_with_fallback, head_with_fallback, merged_buckets, overlay_store,
}
use overlay_s.Overlay.Listing.{
  Gateway, LoopEnd, OverlayStore, Round, baseline_source, choose, close_page, end_round, filled,
  finish, go_on, list_page, lookup_session, merge_loop, on_world, overlay_source, peek_more,
  peek_other, returned, stop, with_default_max_keys,
}
use overlay_s.Overlay.Sessions.{CursorState, ListSessions}
use overlay_s.Store.{
  ByteRange, CompletedPart, ListPage, ListParams, MultipartInfo, ObjectMeta, PartInfo, Reader,
  Store,
}

module _ {W : Type 0} (K : Claim W) (s : Store W) where
  -- The claim holds of the calls that read objects, listings and buckets.
  pub record ReadCalls : Type 0 where
    pub get : (b k : Bytes) (r : Option ByteRange) → K (Reader × ObjectMeta) (s.get b k r)
    pub head : (b k : Bytes) → K ObjectMeta (s.head b k)
    pub list_page : (b : Bytes) (p : ListParams) → K ListPage (s.list_page b p)
    pub list_buckets : K (List Bytes) s.list_buckets
    pub bucket_exists : (b : Bytes) → K Bool (s.bucket_exists b)

  -- The claim holds of every other call.
  pub record WriteCalls : Type 0 where
    pub put : (b k : Bytes) (body : Reader) (ct : Bytes) → K ObjectMeta (s.put b k body ct)
    pub create_bucket : (b : Bytes) → K (Unit {0}) (s.create_bucket b)
    pub initiate_multipart : (b k ct : Bytes) → K Bytes (s.initiate_multipart b k ct)
    pub upload_part :
        (b k id : Bytes) (n : ℤ) (body : Reader) → K Bytes (s.upload_part b k id n body)
    pub complete_multipart :
        (b k id : Bytes) (parts : List CompletedPart)
        → K ObjectMeta (s.complete_multipart b k id parts)
    pub abort_multipart : (b k id : Bytes) → K (Unit {0}) (s.abort_multipart b k id)
    pub list_parts : (b k id : Bytes) → K (List PartInfo) (s.list_parts b k id)
    pub list_multipart_uploads : (b : Bytes) → K (List MultipartInfo) (s.list_multipart_uploads b)

-- A claim about the gateway's calls that follows the code, and holds of the stores' calls where `K`
-- does, and of what only the sessions see.
pub record Lifts {W : Type 0} (K : Claim W) (G : Claim (Gateway W)) : Type 1 where
  pub below : Follows K
  pub above : Follows G
  pub lift : (A : Type 0) (m : Exec W A) → K A m → G A (on_world m)
  pub sessions :
      (A : Type 0) (f : Gateway W → A) (h : Gateway W → ListSessions)
      → G A (λ g. (ok (f g), record g { sessions = h g }))

module _ {W : Type 0} {K : Claim W} {G : Claim (Gateway W)} (lifts : Lifts K G) (now : W → ℕ)
    (fuel : ℕ) (o : OverlayStore W) where
  module _ (os bs : ListSource W) (overlay_loads : (c : ListCursor) → K ListCursor (load os fuel c))
      (baseline_loads : (c : ListCursor) → K ListCursor (load bs fuel c)) where
    overlay_peeks : (c : ListCursor) → K (ListCursor × Option ListEntry) (peek os fuel c)
    unfolding peek
    overlay_peeks c =
        bind-Follows lifts.below _ _ (overlay_loads c) (λ c'. pure-Follows lifts.below _)

    baseline_peeks : (c : ListCursor) → K (ListCursor × Option ListEntry) (peek bs fuel c)
    unfolding peek
    baseline_peeks c =
        bind-Follows lifts.below _ _ (baseline_loads c) (λ c'. pure-Follows lifts.below _)

    merge_calls :
        (left : ℕ) (oc bc : ListCursor) (out : ListPage)
        → K LoopEnd (merge_loop os bs fuel left oc bc out)
    unfolding merge_loop
    merge_calls zero oc bc out = pure-Follows lifts.below _
    merge_calls (suc left) oc bc out = bind-Follows lifts.below _ _ (overlay_peeks oc) λ o.
        bind-Follows lifts.below _ _ (baseline_peeks bc)
          λ b. end (merge_calls left) (choose o.0 b.0 o.1 b.1)
      where
        end :
            ((oc bc : ListCursor) (out : ListPage)
              → K LoopEnd (merge_loop os bs fuel left oc bc out))
            → (r : Round) → K LoopEnd (end_round os bs fuel (merge_loop os bs fuel left) out r)
        end again stop = pure-Follows lifts.below _
        end again (go_on oc bc e) = again oc bc (append_entry out e)

    other_calls :
        (bc oc : ListCursor) (o : Option ListEntry)
        → K (Bool × ListCursor × ListCursor) (peek_other os bs fuel bc oc o)
    other_calls bc oc (some e) = pure-Follows lifts.below _
    other_calls bc oc none =
        bind-Follows lifts.below _ _ (baseline_peeks bc) (λ b. pure-Follows lifts.below _)

    more_calls :
        (oc bc : ListCursor) → K (Bool × ListCursor × ListCursor) (peek_more os bs fuel oc bc)
    unfolding peek_more
    more_calls oc bc = bind-Follows lifts.below _ _ (overlay_peeks oc) (λ o. other_calls bc o.0 o.1)

  close_calls :
      (out : ListPage) (r : Bool × ListCursor × ListCursor)
      → G ListPage (close_page now fuel o out r)
  unfolding close_page
  close_calls out (true, oc, bc) = lifts.sessions _ _ _
  close_calls out (false, oc, bc) = pure-Follows lifts.above _

  lookup_calls : (token : Bytes) → G (CursorState × CursorState) (lookup_session now fuel o token)
  unfolding lookup_session
  lookup_calls token = lifts.sessions _ _ _

  module _
      (overlay_loads : (b : Bytes) (p : ListParams) (c : ListCursor)
        → K ListCursor (load (overlay_source now fuel o b p) fuel c))
      (baseline_loads : (b : Bytes) (p : ListParams) (c : ListCursor)
        → K ListCursor (load (baseline_source now fuel o b p) fuel c)) where
    finish_calls :
        (b : Bytes) (p : ListParams) (r : LoopEnd)
        → G ListPage
            (finish now fuel o (overlay_source now fuel o b p) (baseline_source now fuel o b p) r)
    unfolding finish
    finish_calls b p (returned out) = pure-Follows lifts.above _
    finish_calls b p (filled oc bc out) =
        bind-Follows lifts.above _ _
          (lifts.lift _ _ (more_calls _ _ (overlay_loads b p) (baseline_loads b p) oc bc))
          (close_calls out)

    list_page_calls : (b : Bytes) (p : ListParams) → G ListPage (list_page now fuel o b p)
    unfolding list_page
    list_page_calls b p = bind-Follows lifts.above _ _ (lookup_calls _) λ found.
        let p' = with_default_max_keys p in
        bind-Follows lifts.above _ _
          (lifts.lift _ _ (merge_calls _ _ (overlay_loads b p') (baseline_loads b p') _ _ _ _))
          (finish_calls b p')

    fall_back_calls : {A : Type 0} (m : Exec W A) (e : Error) → K A m → K A (fall_back m e)
    fall_back_calls m e k =
        if-Follows lifts.below (eq_not_found e) m (raise e) k (raise-Follows lifts.below e)

    -- What holds of the reads of both stores holds of the gateway's reads.
    pub overlay_store-ReadCalls :
        ReadCalls K o.overlay → ReadCalls K o.baseline → ReadCalls G (overlay_store now fuel o)
    unfolding overlay_store
    overlay_store-ReadCalls ov bs = record {
      get = λ b k r. lifts.lift _ _ (
          unfold get_with_fallback in
          try-Follows lifts.below _ _ _ (ov.get b k r) (λ a. pure-Follows lifts.below a)
            (λ e. fall_back_calls _ e (bs.get b k r)));
      head = λ b k. lifts.lift _ _ (
          unfold head_with_fallback in
          try-Follows lifts.below _ _ _ (ov.head b k) (λ a. pure-Follows lifts.below a)
            (λ e. fall_back_calls _ e (bs.head b k)));
      list_page = list_page_calls;
      list_buckets = lifts.lift _ _ (
          unfold merged_buckets in
          bind-Follows lifts.below _ _ ov.list_buckets λ names.
            bind-Follows lifts.below _ _ bs.list_buckets λ others. pure-Follows lifts.below _);
      bucket_exists = λ b. lifts.lift _ _ (
          unfold exists_in_either in
          bind-Follows lifts.below _ _ (ov.bucket_exists b) λ found.
            if-Follows lifts.below found _ _ (pure-Follows lifts.below true) (
              try-Follows lifts.below _ _ _ (bs.bucket_exists b) (λ a. pure-Follows lifts.below a)
                (λ e. pure-Follows lifts.below false)));
    }

  -- What holds of the overlay's writes holds of the gateway's.
  pub overlay_store-WriteCalls : WriteCalls K o.overlay → WriteCalls G (overlay_store now fuel o)
  unfolding overlay_store
  overlay_store-WriteCalls k = record {
    put = λ b key body ct. lifts.lift _ _ (k.put b key body ct);
    create_bucket = λ b. lifts.lift _ _ (k.create_bucket b);
    initiate_multipart = λ b key ct. lifts.lift _ _ (k.initiate_multipart b key ct);
    upload_part = λ b key id n body. lifts.lift _ _ (k.upload_part b key id n body);
    complete_multipart = λ b key id parts. lifts.lift _ _ (k.complete_multipart b key id parts);
    abort_multipart = λ b key id. lifts.lift _ _ (k.abort_multipart b key id);
    list_parts = λ b key id. lifts.lift _ _ (k.list_parts b key id);
    list_multipart_uploads = λ b. lifts.lift _ _ (k.list_multipart_uploads b);
  }
