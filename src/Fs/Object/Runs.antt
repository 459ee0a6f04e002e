-- ===== src/Fs/Object/Runs.antt =====
-- Concrete runs of the operations of an object.
use s3fuse.Prelude.{ℕ, true, false, ◌+◌, ◌-◌, ap, ◌≡◌, ◌≢◌, refl, [], ◌∷◌, some, arith, All}
use s3fuse.Prelude.Code.{success, ret}
use s3fuse.Prelude.Text.{Text, codes, same, is_empty}
use s3fuse.Base.Http.{Request, Answer, replied, sc_ok}
use s3fuse.Fs.Object.Commit.{
  found, Sender, Totals, commit, commit_loop, commit_request, judge, compare_etag, note, finish,
}
use s3fuse.Fs.Object.Commit.Laws.{Ended, commit-Ended}
use s3fuse.Fs.Object.Xattr.{
  Base64, from_string, create_xattr, set_value, new_xattr, starts_with, is_key_valid, is_key_char,
  all_chars, is_value_valid, is_value_char,
}
use s3fuse.Fs.Object.Xattr.RoundTrip.{Survives, from_header-to_header}
use s3fuse.Fs.Object.Metadata.{
  XattrMap, user_key, Flags, Changed, set_metadata, get_metadata, remove_metadata, user_flags, find,
  put, erase, assign, set_with,
}
use s3fuse.Fs.Object.Metadata.Laws.{get_metadata-set_metadata}

-- A store that first names a new etag, and then confirms it.
abbrev sender : Sender
sender = record {
  url = codes "/b/f";
  headers_for = λ etag. [];
  acl = [];
  body = [];
  prefix = codes "x-amz-";
  parse = λ s. found s;
}

abbrev store : ℕ → Request → Answer
store n q = replied (record { response_code = sc_ok; response_headers = []; output = codes "e2" })

abbrev no_totals : Totals
no_totals = record { commit_failures = 0; abandoned_commits = 0; precon_rescues = 0 }

commit_settles : (commit sender store 3 (codes "e1") no_totals).code ≡ success
unfolding commit commit_loop commit_request judge compare_etag note finish is_empty same
commit_settles = refl

commit-Ended_example : Ended sender store 0 3 (commit sender store 3 (codes "e1") no_totals).etag
commit-Ended_example =
    commit-Ended sender store 3 (codes "e1") no_totals (omega arith) commit_settles

-- An encoding without spaces, standing for base64.
abbrev pub shift : Text → Text
shift [] = []
shift (c ∷ s) = (c + 33) ∷ shift s

abbrev pub unshift : Text → Text
unshift [] = []
unshift (c ∷ s) = (c - 33) ∷ unshift s

pub unshift-shift : (s : Text) → unshift (shift s) ≡ s
unshift-shift [] = refl
unshift-shift (c ∷ s) = ground (arith, unshift-shift s)

pub shift_spaces : (s : Text) → All (λ c. c ≢ 32) (shift s)
shift_spaces [] = tt
shift_spaces (c ∷ s) = (omega arith, shift_spaces s)

abbrev pub shifted : Base64
shifted = record {
  encode_bytes = shift;
  decode_bytes = λ s. some (unshift s);
  decode-encode_bytes = λ s. ap some (unshift-shift s);
  no_spaces = shift_spaces;
}

from_header-to_header_example : Survives shifted (λ k. k) (codes "A") (codes "blue") user_flags
from_header-to_header_example =
    from_header-to_header shifted (λ k. k) (codes "A") (codes "blue") user_flags
      ((λ e. ground arith), tt)

abbrev any : Flags
any = record { create = false; replace = false }

abbrev coloured : XattrMap
coloured = (codes "a", from_string (codes "a") (codes "x") user_flags) ∷ []

abbrev recoloured : Changed
recoloured = record {
  code = success;
  needs_commit = true;
  metadata = (codes "a", from_string (codes "a") (codes "y") user_flags) ∷ [];
}

recolours : set_metadata (codes "user.a") (codes "y") any coloured ≡ some recoloured
unfolding set_metadata set_with assign user_key find put from_string create_xattr set_value
    new_xattr starts_with is_key_valid is_key_char all_chars is_value_valid is_value_char is_empty
    same
recolours = refl

get_metadata-set_metadata_example :
    get_metadata (codes "user.a") (some 10) recoloured.metadata ≡ some (ret 1, codes "y")
get_metadata-set_metadata_example =
    get_metadata-set_metadata (codes "user.a") (codes "y") any coloured recoloured 10 recolours refl
      (omega arith)

removes : remove_metadata (codes "user.a") coloured ≡ some (success, [])
unfolding remove_metadata user_key find erase same from_string create_xattr set_value new_xattr
removes = refl
