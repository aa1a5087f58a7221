-- ===== src/Storage/S3/Verdicts.antt =====
-- storage/s3_intake.go: the allowed verdicts, as empty marker objects on S3.
use open_trove.Base.{
  String, Bool, true, false, not, List, if◌then◌else◌, Result, ok, err, plain, wrap,
}
use open_trove.Base.Text.{append}
use open_trove.Base.Exec.{Exec, raise, wrapping}
use open_trove.Storage.S3.{HeadOutput, Client, is_missing, valid_token_id}

abbrev pub verdict_key : String → String
verdict_key key = append "_intake/" key

-- Thirty-two bytes in hexadecimal.
abbrev pub valid_intake_key : String → Bool
valid_intake_key = valid_token_id

abbrev found_or : Result HeadOutput → Result Bool
found_or (ok _) = ok true
found_or (err e) = if is_missing e then ok false else err (wrap "checking intake verdict" e)

module _ {S : Type 0} (client : Client S) where
  unfoldable pub has_allowed_verdict : String → Exec S Bool
  has_allowed_verdict key s =
      if not (valid_intake_key key) then (err (plain "invalid intake cache key"), s) else (
        found_or (client.head_object (verdict_key key) s).0,
        (client.head_object (verdict_key key) s).1,
      )

  unfoldable pub put_allowed_verdict : String → Exec S (Unit {0})
  put_allowed_verdict key =
      if not (valid_intake_key key)
      then raise (plain "invalid intake cache key")
      else wrapping "storing intake verdict" (
          client.put_object (record {
            key = verdict_key key;
            body = List.[];
            content_type = "application/octet-stream";
            metadata = List.[];
            if_none_match = false;
            if_match = "";
          }))
