-- ===== src/Ingest/Upload.antt =====
-- `_multipart_upload` of module2-email-worker/app/services/s3_uploader.py: a large attachment in
-- parts. S3 joins the parts of an upload when it is completed.
pub mod Laws
use prompt_flow_ai.Prelude.{
  ℕ, zero, suc, ◌+◌, String, Bool, true, false, not, Option, none, some, List, [], ◌∷◌, ◌++◌,
  length, take, drop, ltb, str_eq, if◌then◌else◌,
}
use prompt_flow_ai.Prelude.Text.{Bytes}

-- What the calls meet: `false` is an exception.
pub record Calls : Type 0 where
  pub create_works : Bool
  pub part_works : (part_number : ℕ) → Bool
  pub complete_works : Bool
  pub abort_works : Bool

pub record Bucket : Type 0 where
  pub objects : List (String × Bytes)
  pub open_uploads : List String

abbrev pub Part : Type 0
Part = ℕ × Bytes

abbrev pub part_size : ℕ
part_size = 5242880

-- The bytes of the parts in the order of the list.
unfoldable pub joined : List Part → Bytes
joined [] = []
joined ((n, chunk) ∷ ps) = chunk ++ joined ps

-- The loop, on fuel: the outer `none` is out of fuel, the inner one an exception.
unfoldable pub upload_parts :
    Calls
    → (size : ℕ) → (fuel : ℕ) → Bytes
    → (offset part_number : ℕ) → List Part
    → Option (Option (List Part))
upload_parts c size zero file offset n parts = none
upload_parts c size (suc fuel) file offset n parts =
    let chunk = take size (drop offset file) in
    let rest = upload_parts c size fuel file (offset + size) (suc n) (parts ++ (n, chunk) ∷ []) in
    if ltb offset (length file)
    then (if c.part_works n then rest else some none)
    else some (some parts)

pub data Outcome : Type 0 where
  uploaded raised : Outcome

unfoldable pub close_upload : String → List String → List String
close_upload key [] = []
close_upload key (k ∷ ks) = if str_eq k key then ks else k ∷ close_upload key ks

-- The `except` block
unfoldable pub abort : Calls → String → Bucket → Outcome × Bucket
unfolding close_upload
abort c key b =
    if c.abort_works
    then (raised, record b { open_uploads = close_upload key b.open_uploads })
    else (raised, b)

-- The end of the `try` block; `none` is out of fuel.
unfoldable pub complete :
    Calls → String → Option (Option (List Part)) → Bucket → Option (Outcome × Bucket)
unfolding abort close_upload joined
complete c key none b = none
complete c key (some none) b = some (abort c key b)
complete c key (some (some parts)) b =
    if c.complete_works
    then some (
      uploaded,
      record {
        objects = (key, joined parts) ∷ b.objects;
        open_uploads = close_upload key b.open_uploads;
      },
    )
    else some (abort c key b)

-- The fuel is the length of the file and one more round, which finds the end.
unfoldable pub multipart_upload : Calls → String → Bytes → Bucket → Option (Outcome × Bucket)
unfolding upload_parts complete
multipart_upload c key file b =
    if c.create_works
    then complete c key (upload_parts c part_size (suc (length file)) file 0 1 [])
        (record b { open_uploads = key ∷ b.open_uploads })
    else some (raised, b)
