-- ===== src/Tests/Backends.antt =====
-- The S3 store over a backend in memory.
use mathlib.Core.List.{cons-ne-nil}
use mathlib.Core.Path.{subst}
use overlay_s.Base.{
  Bool, Bytes, Lacks-of_contains_byte, List, Option, [], arith, bytes_eq, codes, contains_byte,
  false, if◌then◌else◌, length, none, pos, quote, refl, some, true, ◌++◌, ◌∷◌, ◌≡◌, ◌≢◌,
}
use overlay_s.Base.Exec.{Error, Outcome, api_error, err, ok, pure, raise, sdk_no_such_key}
use overlay_s.Overlay.Gateway.Layered.{Objects}
use overlay_s.Remote.Calls.{head_meta, object_answered, object_meta, s3_put}
use overlay_s.Remote.Client.{
  Client, GetObjectOutput, HeadObjectOutput, ListObjectsOutput, ListPartsOutput,
}
use overlay_s.Remote.Holdings.{BackendHolds, Described, SentWhole, Serves, Shown, StoredObject}
use overlay_s.Remote.KeyMap.{Mapping}
use overlay_s.Remote.Listings.{s3_list_buckets}
use overlay_s.Remote.Mapped.{Absent, absent_key, s3_store}
use overlay_s.Remote.Outputs.{listed_parts}
use overlay_s.Remote.Pages.{Lists, PartPages, last_parts, more_parts, s3_list_buckets-Bare}
use overlay_s.Remote.Ranges.{Answers, Gives, object_answered-slice, slice, whole_answer}
use overlay_s.Remote.Serves.{mapped_holds, s3_store-Serves}
use overlay_s.Remote.Written.{BackendWrites, StoredNamed, s3_put-StoredNamed}
use overlay_s.Server.Served.{sent}
use overlay_s.Store.{PartInfo}
use overlay_s.Tests.Stores.{Contents, World, clock, reader, stored, world}

abbrev pub physical : Mapping
physical = record { bucket = codes "physical"; prefix = codes "root" }

abbrev physical_mapped : physical.bucket ≢ []
physical_mapped = cons-ne-nil _ _

abbrev whole_object : GetObjectOutput
whole_object = record {
  body = reader (codes "hello");
  content_length = some (pos 5);
  content_range = none;
  content_type = none;
  etag = none;
  last_modified = none;
}

object_answered-slice_example : Gives (slice 1 2 (codes "hello")) (
    object_answered
      (codes "greeting")
      (some (record { start = pos 1; length = pos 2 }))
      whole_object)
object_answered-slice_example =
    object_answered-slice (codes "hello") 1 2 (omega arith) (codes "greeting") whole_object
      (whole_answer refl refl refl)

abbrev pub output : Bytes → GetObjectOutput
output v = record {
  body = reader v;
  content_length = some (pos (length v));
  content_range = some (codes "bytes");
  content_type = none;
  etag = none;
  last_modified = none;
}

abbrev head_output : Bytes → HeadObjectOutput
head_output v = record {
  content_length = some (pos (length v));
  content_type = none;
  etag = none;
  last_modified = none;
}

abbrev missing_error : Error
missing_error = api_error sdk_no_such_key (codes "NoSuchKey") []

abbrev pub sent_object : (Bytes → GetObjectOutput) → Option Bytes → Outcome GetObjectOutput
sent_object f none = err missing_error
sent_object f (some v) = ok (f v)

abbrev pub shown_object : Option Bytes → Outcome HeadObjectOutput
shown_object none = err missing_error
shown_object (some v) = ok (head_output v)

abbrev pub part_page : Option Bytes → ListPartsOutput
part_page none = record {
  parts =
      record { part_number = some (pos 1); etag = none; size = some (pos 5); last_modified = none }
      ∷ [];
  is_truncated = some true;
  next_part_number_marker = some (codes "1");
}
part_page (some marker) = record {
  parts =
      record { part_number = some (pos 2); etag = none; size = some (pos 3); last_modified = none }
      ∷ [];
  is_truncated = none;
  next_part_number_marker = none;
}

abbrev pub root_page : ListObjectsOutput
root_page = record {
  contents = [];
  common_prefixes = some (codes "root/") ∷ [];
  is_truncated = none;
  next_continuation_token = none;
}

-- A backend of one of the two maps; it sends whole objects.
abbrev pub client_of : (World → Contents) → (Contents → World → World) → Client World
client_of held with_held = record {
  get_object = λ b k r w. (sent_object output (held w b k), w);
  head_object = λ b k w. (shown_object (held w b k), w);
  put_object = λ b k bytes ct w. (ok none, with_held (stored (held w) b k bytes) w);
  list_objects_v2 = λ i. pure root_page;
  list_buckets = pure [];
  head_bucket = λ b. pure tt;
  create_bucket = λ b. pure tt;
  create_multipart_upload = λ b k ct. pure none;
  upload_part = λ b k id n bytes. pure none;
  complete_multipart_upload = λ b k id parts. pure none;
  abort_multipart_upload = λ b k id. pure tt;
  list_parts = λ b k id marker. pure (part_page marker);
  list_multipart_uploads = λ b p k id. raise missing_error;
}

abbrev pub backend : Client World
backend = client_of (λ w. w.upper) (λ m w. record w { upper = m })

abbrev pub lower_backend : Client World
lower_backend = client_of (λ w. w.lower) (λ m w. record w { lower = m })

-- One object, and a backend that holds it and ignores ranges
abbrev held_object : StoredObject
held_object = record {
  content = codes "hello";
  etag = codes "tag";
  last_modified = 7;
  content_type = codes "text/plain";
}

abbrev object_here : Bool → Option StoredObject
object_here there = if there then some held_object else none

abbrev here : Bytes → Bool
here k = bytes_eq k (codes "root/media/greeting")

abbrev sent_tag : Option Bytes
sent_tag = some (quote ∷ codes "tag" ++ quote ∷ [])

abbrev object_output : GetObjectOutput
object_output = record {
  body = reader (codes "hello");
  content_length = some (pos 5);
  content_range = none;
  content_type = some (codes "text/plain");
  etag = sent_tag;
  last_modified = some 7;
}

abbrev head_object_output : HeadObjectOutput
head_object_output = record {
  content_length = some (pos 5);
  content_type = some (codes "text/plain");
  etag = sent_tag;
  last_modified = some 7;
}

abbrev answer_here : {A : Type 0} → A → Bool → Outcome A
answer_here out there = if there then ok out else err missing_error

abbrev object_client : Client World
object_client = record backend {
  get_object = λ b k r w. (answer_here object_output (here k), w);
  head_object = λ b k w. (answer_here head_object_output (here k), w);
}

held_object-Described : Described held_object sent_tag (some 7) (some (codes "text/plain"))
held_object-Described = record {
  tagged = refl;
  unquoted = Lacks-of_contains_byte (codes "tag") quote (unfold contains_byte in refl);
  modified = refl;
  typed = refl;
}

Absent-here :
    {A : Type 0} (out : A) (there : Bool)
    → object_here there ≡ none
    → (e : Error) × Absent e × (answer_here out there ≡ err e)
Absent-here out true gone = absurd (ground arith)
Absent-here out false gone = (missing_error, absent_key (codes "NoSuchKey") [], refl)

present_here :
    {A : Type 0} (P : StoredObject → A → Type 0) (out : A)
    → P held_object out
    → (there : Bool) (v : StoredObject) → object_here there ≡ some v
    → (sent : A) × (answer_here out there ≡ ok sent) × P v sent
present_here P out h true v e = (out, refl, subst (λ v. P v out) (inside e) h)
  where
    inside : {a b : StoredObject} → some a ≡ some b → a ≡ b
    inside e = cc
present_here P out h false v e = absurd (ground arith)

object_client-BackendHolds : BackendHolds object_client (λ w b k. object_here (here k))
object_client-BackendHolds = record {
  get_missing = λ w b k range gone. Absent-here object_output (here k) gone;
  get_whole = λ w b k v there.
      present_here SentWhole object_output (held_object-Described, refl, refl) (here k) v there;
  get_range = λ w b k v first count there inside.
      let (out, sent, both) =
        present_here
          (λ v out.
            Described v out.etag out.last_modified out.content_type
            × Answers v.content first count out)
          object_output (held_object-Described, whole_answer refl refl refl) (here k) v there in
      (out, sent, both.0, both.1);
  head_missing = λ w b k gone. Absent-here head_object_output (here k) gone;
  head_shown = λ w b k v there.
      present_here Shown head_object_output (held_object-Described, refl) (here k) v there;
}

s3_store-Serves_example : Serves (s3_store clock object_client physical 3) (
    mapped_holds object_client
      (λ w b k. object_here (here k))
      clock
      physical
      3
      object_client-BackendHolds)
s3_store-Serves_example =
    s3_store-Serves object_client (λ w b k. object_here (here k)) clock physical 3
      object_client-BackendHolds

-- The objects as the other backend takes them
abbrev as_sent : Objects Bytes
as_sent = record {
  serve = λ k r v. (reader v, object_meta k (output v));
  describe = λ k v. head_meta k (head_output v);
  made = λ body ct v. v ≡ body.content;
}

abbrev parts : List PartInfo
parts = listed_parts (part_page none).parts ++ listed_parts (part_page (some (codes "1"))).parts

part_pages : PartPages backend (codes "physical") (codes "root/media/a") (codes "id") 2 none parts
part_pages =
    more_parts (part_page none) (codes "1") (λ w. refl) refl refl
      (last_parts (part_page (some (codes "1"))) (λ w. refl) refl refl) refl

s3_list_buckets-Bare_example :
    Lists clock backend physical physical_mapped
      (cons-ne-nil _ _)
      []
      (s3_list_buckets clock backend physical 3 world).0
s3_list_buckets-Bare_example =
    s3_list_buckets-Bare clock backend physical physical_mapped (cons-ne-nil _ _) 3 world
      (λ t w. (([], tt, refl), tt))

backend-Writes : BackendWrites as_sent backend (λ w. w.upper)
backend-Writes = record { put_object = λ w pb pk content ct. (content, refl, λ b' k'. refl) }

s3_put-StoredNamed_example :
    StoredNamed as_sent backend
      (λ w. w.upper)
      physical
      world
      (codes "media")
      (codes "note")
      (reader (codes "bye"))
      (codes "text/plain")
      (s3_put clock backend physical
        (codes "media")
        (codes "note")
        (reader (codes "bye"))
        (codes "text/plain")
        world)
s3_put-StoredNamed_example =
    s3_put-StoredNamed as_sent backend (λ w. w.upper) physical physical_mapped clock backend-Writes
      world (codes "media") (codes "note") (reader (codes "bye")) (codes "text/plain")
      (cons-ne-nil _ _, Lacks-of_contains_byte (codes "media") b'/' (unfold contains_byte in refl))
      (cons-ne-nil _ _)
