-- ===== src/Remote/Serves.antt =====
-- remote.go, Get and Head of s3Store against a backend that holds objects, as S3 answers for them.
use overlay_s.Base.{
  Bytes, Option, ap, arith, if◌then◌else◌, length, ltb_ℤ, none, pos, quote, refl, some, trim-quoted,
  ℕ, ℤ, ◌+◌, ◌-◌, ◌≡◌, ◌≤◌,
}
use overlay_s.Base.Exec.{err, err_not_found, ok}
use overlay_s.Range.{header}
use overlay_s.Range.Forms.{header-digits}
use overlay_s.Remote.Calls.{
  cap_size, cut_body, head_meta, map_s3_error, object_answered, object_meta, range_header, s3_get,
  s3_head,
}
use overlay_s.Remote.Client.{Client, GetObjectOutput, bare_etag, to_int, to_string, to_time}
use overlay_s.Remote.Holdings.{
  BackendHolds, Described, HasRange, SentWhole, Serves, StoredObject, meta_of, range_from,
  range_text,
}
use overlay_s.Remote.KeyMap.{Mapping, map_key}
use overlay_s.Remote.Listed.{shown}
use overlay_s.Remote.Loops.{answers}
use overlay_s.Remote.Mapped.{is_missing-Absent, s3_store}
use overlay_s.Remote.Ranges.{
  Answers, limited-skipped, range_answer, skip_failure-none, slice, whole_answer,
}
use overlay_s.Store.{ByteRange, ObjectMeta}

meta_fields :
    (k : Bytes) (v : StoredObject) (n : ℕ) (length : Option ℤ) (etag : Option Bytes)
    (modified : Option ℕ) (type : Option Bytes)
    → Described v etag modified type
    → length ≡ some (pos n)
    → ◌≡◌ {A = ObjectMeta}
        (record {
          key = k;
          size = to_int length;
          etag = bare_etag etag;
          last_modified = to_time modified;
          content_type = to_string type;
        })
        (meta_of k v n)
meta_fields k v n length etag modified type d h =
    rw (h, d.tagged, d.modified, d.typed, trim-quoted v.etag quote d.unquoted) refl

header_text :
    (v : StoredObject) (first count : ℕ)
    → HasRange v first count
    → header (range_from first count) ≡ range_text first (first + count - 1)
header_text v first count (some_bytes, inside, fits) =
    header-digits (length v.content) fits first count some_bytes inside

whole_answered :
    (k : Bytes) (v : StoredObject) (out : GetObjectOutput)
    → SentWhole v out
    → object_answered k none out
      ≡ ok (record { content = v.content; failure = none }, meta_of k v (length v.content))
unfolding object_answered object_meta
whole_answered k v out (d, body, size) =
    rw
      (
        body,
        meta_fields k v (length v.content) out.content_length out.etag out.last_modified
            out.content_type d size,
      )
      refl

capped :
    (k : Bytes) (v : StoredObject) (first count : ℕ)
    → HasRange v first count
    → cap_size (meta_of k v (length v.content)) (range_from first count) ≡ meta_of k v count
unfolding cap_size
capped k v first count inside =
    ap
      (λ n. record {
        key = k;
        size = n;
        etag = v.etag;
        last_modified = v.last_modified;
        content_type = v.content_type;
      })
      (smaller count (length v.content) (omega arith))
  where
    smaller : (a b : ℕ) → a ≤ b → (if ltb_ℤ (pos a) (pos b) then pos a else pos b) ≡ pos a
    smaller a b h = ground arith

cut_whole :
    (k : Bytes) (v : StoredObject) (first count : ℕ)
    → HasRange v first count
    → cut_body
        (range_from first count)
        (record { content = v.content; failure = none })
        (meta_of k v (length v.content))
      ≡ ok (record { content = slice first count v.content; failure = none }, meta_of k v count)
unfolding cut_body
cut_whole k v first count inside =
    rw
      (
        cut_body,
        skip_failure-none v.content first count inside.1,
        limited-skipped v.content first count inside.1,
        capped k v first count inside,
      )
      refl

range_answered :
    (k : Bytes) (v : StoredObject) (first count : ℕ) (out : GetObjectOutput)
    → HasRange v first count
    → Described v out.etag out.last_modified out.content_type
    → Answers v.content first count out
    → object_answered k (some (range_from first count)) out
      ≡ ok (record { content = slice first count v.content; failure = none }, meta_of k v count)
unfolding object_answered object_meta
range_answered k v first count out inside d (whole_answer body size plain) =
    rw
      (
        plain,
        body,
        meta_fields k v (length v.content) out.content_length out.etag out.last_modified
            out.content_type d size,
      )
      (cut_whole k v first count inside)
range_answered k v first count out inside d (range_answer body size ranged) =
    rw
      (
        ranged,
        body,
        meta_fields k v count out.content_length out.etag out.last_modified out.content_type d size,
      )
      refl

module _ {W : Type 0} (client : Client W) (held : W → Bytes → Bytes → Option StoredObject)
    (now : W → ℕ) (s : Mapping) (fuel : ℕ) (backend : BackendHolds client held) where
  -- What the store holds under a client key
  abbrev pub mapped_holds : W → Bytes → Bytes → Option StoredObject
  mapped_holds w b k = held w (map_key s b k).0 (map_key s b k).1

  missing_get :
      (b k : Bytes) (r : Option ByteRange) (w : W)
      → mapped_holds w b k ≡ none
      → (s3_get now client s b k r w).0 ≡ err err_not_found
  unfolding s3_get map_s3_error
  missing_get b k r w gone =
      let (e, absent, answered) =
        backend.get_missing w (map_key s b k).0 (map_key s b k).1 (range_header r) gone in
      rw (answered, is_missing-Absent e absent) refl

  -- Get and Head of s3Store serve what the backend holds under the mapped key. A range that the object
  -- has is asked for as HTTP has it and gives exactly its bytes, whether the backend serves ranges or
  -- answers with the whole object; what is not there gives ErrNotFound, whichever error says so. The
  -- backend must send what it holds, with its size and its ETag in quotes.
  pub s3_store-Serves : Serves (s3_store now client s fuel) mapped_holds
  unfolding s3_store s3_get s3_head map_s3_error head_meta
  s3_store-Serves = record {
    get_missing = λ w b k r gone. missing_get b k r w gone;
    get_whole = λ w b k v there.
        let (out, sent, all) = backend.get_whole w (map_key s b k).0 (map_key s b k).1 v there in
        rw sent (whole_answered k v out all);
    get_range = λ w b k v first count there inside.
        let (out, sent, described, answers) =
          backend.get_range w (map_key s b k).0 (map_key s b k).1 v first count there inside in
        rw (header_text v first count inside, sent)
          (range_answered k v first count out inside described answers);
    head_missing = λ w b k gone.
        let (e, absent, answered) =
          backend.head_missing w (map_key s b k).0 (map_key s b k).1 gone in
        rw (answered, is_missing-Absent e absent) refl;
    head_shown = λ w b k v there.
        let (out, sent, shown) = backend.head_shown w (map_key s b k).0 (map_key s b k).1 v there in
        rw sent (
          ap ok (
            meta_fields k v (length v.content) out.content_length out.etag out.last_modified
              out.content_type shown.0 shown.1));
  }
