-- ===== src/Fs/Object/Commit.antt =====
-- object::commit of fs/object.cc. The headers and the body of the object, the acl and what xml::parse
-- and xml::find make of the store's answer (libxml) are arguments. Log lines are left out.
pub mod Laws
use s3fuse.Prelude.{
  ℕ, zero, suc, ◌+◌, Bool, true, false, not, List, [], ◌∷◌, ◌++◌, if◌then◌else◌, ◌==◌,
}
use s3fuse.Prelude.Code.{
  Code, Errno, ret, err, success, is_failure, eio, ebusy, eagain, ecanceled, etimedout,
}
use s3fuse.Prelude.Text.{Text, codes, same, is_empty}
use s3fuse.Base.Http.{
  Headers, Request, Response, Answer, replied, threw, timed_out, http_put, sc_ok,
  sc_precondition_failed,
}

-- The document has no root, xml::find fails, or it finds the new etag.
pub data Parsed : Type 0 where
  unparsed : Parsed
  not_found : Errno → Parsed
  found : Text → Parsed

-- What an object sends with each commit. `headers_for` has the etag, which is among the headers.
pub record Sender : Type 0 where
  pub url : Text
  pub headers_for : Text → Headers
  pub acl : Headers
  pub body : Text
  pub prefix : Text
  pub parse : Text → Parsed

unfoldable pub commit_request : Sender → Text → Request
commit_request o etag = record {
  method = http_put;
  url = o.url;
  headers = o.headers_for etag ++ (o.acl ++ conditions);
  input = if is_empty etag then o.body else [];
}
  where
    conditions : Headers
    conditions =
        if is_empty etag
        then []
        else (o.prefix ++ codes "copy-source", o.url)
          ∷ (o.prefix ++ codes "copy-source-if-match", etag)
          ∷ (o.prefix ++ codes "metadata-directive", codes "REPLACE")
          ∷ []

-- The end of a round: `break` with a code, or `continue` with a code and an etag.
pub data Round : Type 0 where
  stop : Code → Round
  again : Errno → Text → Round

-- What the loop does with an answer whose etag has been read out of it.
unfoldable pub compare_etag : Text → Parsed → Round
compare_etag etag unparsed = stop (err eio)
compare_etag etag (not_found e) = stop (err e)
compare_etag etag (found new_etag) =
    if is_empty new_etag
    then stop (err eio)
    else if same new_etag etag
    then stop success
    else again eagain new_etag

unfoldable pub judge : (Text → Parsed) → Text → Response → Round
unfolding compare_etag
judge parse etag res =
    if res.response_code == sc_precondition_failed
    then again ebusy etag
    else if not (res.response_code == sc_ok)
    then stop (err eio)
    else if is_empty res.output
    then stop success
    else if is_empty etag
    then stop success
    else compare_etag etag (parse res.output)

-- The counters of the file, and the members and locals that the loop changes.
pub record State : Type 0 where
  pub etag : Text
  pub current_error : Code
  pub last_error : Code
  pub precon_failed : ℕ
  pub new_etags : ℕ

-- How the loop ends: by itself, or by an exception.
pub data Outcome : Type 0 where
  finished : State → Outcome
  thrown : Errno → State → Outcome

unfoldable pub note : Errno → State → State
note Errno.ebusy s = record s { precon_failed = suc s.precon_failed }
note e s = record s { new_etags = suc s.new_etags }

module _ (o : Sender) (server : ℕ → Request → Answer) where
  -- `k` rounds are left, and the next has the number `i`.
  unfoldable pub commit_loop : ℕ → ℕ → State → Outcome
  commit_loop zero i s = finished s
  commit_loop (suc k) i s = elim (server i (commit_request o s.etag)) [
    | threw ↦ thrown ecanceled (record s { last_error = s.current_error })
    | timed_out ↦ thrown etimedout (record s { last_error = s.current_error })
    | replied res ↦ elim (judge o.parse s.etag res) [
      | stop c ↦ finished (record s { last_error = s.current_error; current_error = c })
      | again e new_etag ↦ commit_loop k (suc i) (
          note e
            (record s { last_error = s.current_error; current_error = err e; etag = new_etag }))
    ]
  ]

-- The counters after the loop.
pub record Totals : Type 0 where
  pub commit_failures : ℕ
  pub abandoned_commits : ℕ
  pub precon_rescues : ℕ

unfoldable is_eio : Code → Bool
is_eio (err Errno.eio) = true
is_eio c = false

unfoldable is_ebusy : Code → Bool
is_ebusy (err Errno.ebusy) = true
is_ebusy c = false

unfoldable pub count_commit : Code → Code → Totals → Totals
unfolding is_eio is_ebusy
count_commit current last t =
    if is_failure current
    then if is_eio current
      then record t { commit_failures = suc t.commit_failures }
      else record t { abandoned_commits = suc t.abandoned_commits }
    else if is_ebusy last
    then record t { precon_rescues = suc t.precon_rescues }
    else t

-- The code, the etag and the counters that `commit` leaves.
pub record Committed : Type 0 where
  pub code : Code
  pub etag : Text
  pub totals : Totals

unfoldable pub finish : Totals → Outcome → Committed
finish t (finished s) = record {
  code = s.current_error;
  etag = s.etag;
  totals = count_commit s.current_error s.last_error t;
}
finish t (thrown e s) = record { code = err e; etag = s.etag; totals = t }

unfoldable pub commit : Sender → (ℕ → Request → Answer) → ℕ → Text → Totals → Committed
unfolding commit_loop finish
commit o server max_retries etag t = finish t (
    commit_loop o server max_retries 0 (record {
      etag = etag;
      current_error = success;
      last_error = success;
      precon_failed = 0;
      new_etags = 0;
    }))
