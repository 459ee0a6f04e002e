-- ===== src/Base/Request/Delivery.antt =====
-- What the callbacks of a transfer deliver, against a description of it without the request object.
use s3fuse.Prelude.{
  ℕ, suc, ◌≡◌, refl, sym, ◌∙◌, ap, Bool, true, false, ◌&&◌, [], ◌++◌, ◌==◌, length, take, drop,
  arith, Bool-cases, inl, inr, ◌⊎◌, append_assoc, append-nil, subst,
}
use s3fuse.Prelude.Text.{Text}
use s3fuse.Base.Request.{
  CurlCode, Transfer, header, output, input, seek, watchdog, ends, RequestState, header_process,
  output_write, input_read, input_seek, check_timeout, perform, whole_input, rewind,
}

-- A transfer whose callbacks all do what they are asked to, with `left` of the input not yet read: what it
-- delivers, and how it ends.
abbrev pub delivered : Text → Text → Transfer → Text
delivered whole left (header chunk z k) = delivered whole left (k (length chunk))
delivered whole left (output chunk k) = chunk ++ delivered whole left (k (length chunk))
delivered whole left (input size k) = delivered whole (drop size left) (k (take size left))
delivered whole left (seek offset set k) = elim (set && offset == 0) [
  | true ↦ delivered whole whole (k true)
  | false ↦ delivered whole left (k false)
]
delivered whole left (watchdog now k) = delivered whole left k
delivered whole left (ends r code filetime) = []

abbrev pub ending : Text → Text → Transfer → CurlCode × ℕ × ℕ
ending whole left (header chunk z k) = ending whole left (k (length chunk))
ending whole left (output chunk k) = ending whole left (k (length chunk))
ending whole left (input size k) = ending whole (drop size left) (k (take size left))
ending whole left (seek offset set k) = elim (set && offset == 0) [
  | true ↦ ending whole whole (k true)
  | false ↦ ending whole left (k false)
]
ending whole left (watchdog now k) = ending whole left k
ending whole left (ends r code filetime) = (r, code, filetime)

abbrev pub state_of : CurlCode × ℕ × ℕ × RequestState → RequestState
state_of (r, code, filetime, s) = s

-- Once canceled, a request stays canceled.
pub perform-canceled :
    (t : Transfer) (s : RequestState) → s.canceled ≡ true → (state_of (perform t s)).canceled ≡ true
unfolding perform header_process output_write input_read input_seek check_timeout rewind
perform-canceled (header chunk z k) s h = perform-canceled (k _) _ (ground arith)
perform-canceled (output chunk k) s h = perform-canceled (k _) _ (ground arith)
perform-canceled (input size k) s h = perform-canceled (k _) _ (ground arith)
perform-canceled (seek offset set k) s h = perform-canceled (k _) _ (ground arith)
perform-canceled (watchdog now k) s h = perform-canceled k _ (ground arith)
perform-canceled (ends r code filetime) s h = h

-- What no callback changes.
pub record Kept (s t : RequestState) : Type 0 where
  pub method : t.method ≡ s.method
  pub url : t.url ≡ s.url
  pub curl_url : t.curl_url ≡ s.curl_url
  pub input_buffer : t.input_buffer ≡ s.input_buffer

pub Kept-trans : {s t u : RequestState} → Kept s t → Kept t u → Kept s u
Kept-trans a b = record {
  method = b.method ∙ a.method;
  url = b.url ∙ a.url;
  curl_url = b.curl_url ∙ a.curl_url;
  input_buffer = b.input_buffer ∙ a.input_buffer;
}

header_process-Kept :
    (chunk : Text) (z : Bool) (s : RequestState) → Kept s (header_process chunk z s).1
unfolding header_process
header_process-Kept chunk z s = record {
  method = ground arith;
  url = ground arith;
  curl_url = ground arith;
  input_buffer = ground arith;
}

output_write-Kept : (chunk : Text) (s : RequestState) → Kept s (output_write chunk s).1
unfolding output_write
output_write-Kept chunk s = record {
  method = ground arith;
  url = ground arith;
  curl_url = ground arith;
  input_buffer = ground arith;
}

input_read-Kept : (size : ℕ) (s : RequestState) → Kept s (input_read size s).1
unfolding input_read
input_read-Kept size s = record {
  method = ground arith;
  url = ground arith;
  curl_url = ground arith;
  input_buffer = ground arith;
}

input_seek-Kept : (offset : ℕ) (set : Bool) (s : RequestState) → Kept s (input_seek offset set s).1
unfolding input_seek rewind
input_seek-Kept offset set s = record {
  method = ground arith;
  url = ground arith;
  curl_url = ground arith;
  input_buffer = ground arith;
}

check_timeout-Kept : (now : ℕ) (s : RequestState) → Kept s (check_timeout now s).1
unfolding check_timeout
check_timeout-Kept now s = record {
  method = ground arith;
  url = ground arith;
  curl_url = ground arith;
  input_buffer = ground arith;
}

pub perform-Kept : (t : Transfer) (s : RequestState) → Kept s (state_of (perform t s))
unfolding perform
perform-Kept (header chunk z k) s =
    Kept-trans (header_process-Kept chunk z s) (perform-Kept (k _) _)
perform-Kept (output chunk k) s = Kept-trans (output_write-Kept chunk s) (perform-Kept (k _) _)
perform-Kept (input size k) s = Kept-trans (input_read-Kept size s) (perform-Kept (k _) _)
perform-Kept (seek offset set k) s =
    Kept-trans (input_seek-Kept offset set s) (perform-Kept (k _) _)
perform-Kept (watchdog now k) s = Kept-trans (check_timeout-Kept now s) (perform-Kept k _)
perform-Kept (ends r code filetime) s = record {
  method = refl;
  url = refl;
  curl_url = refl;
  input_buffer = refl;
}

-- The output and the ending of a transfer that starts from a buffer, are as described.
pub record Delivers (t : Transfer) (whole left buffer : Text) (p : CurlCode × ℕ × ℕ × RequestState)
    : Type 0 where
  pub output_buffer : p.3.output_buffer ≡ buffer ++ delivered whole left t
  pub ended : (p.0, p.1, p.2) ≡ ending whole left t

still_uncanceled :
    (t : Transfer) (s : RequestState)
    → (state_of (perform t s)).canceled ≡ false
    → s.canceled ≡ false
still_uncanceled t s h = elim (Bool-cases s.canceled) [
  | inl c ↦ absurd (ground (arith, perform-canceled t s c))
  | inr n ↦ n
]

header_process-neutral :
    (chunk : Text) (z : Bool) (s : RequestState)
    → s.canceled ≡ false
    → ((header_process chunk z s).0 ≡ length chunk)
      × ((header_process chunk z s).1.output_buffer ≡ s.output_buffer)
      × ((header_process chunk z s).1.input_left ≡ s.input_left)
unfolding header_process
header_process-neutral chunk z s n = (ground arith, ground arith, ground arith)

check_timeout-neutral :
    (now : ℕ) (s : RequestState)
    → (check_timeout now s).1.canceled ≡ false
    → (check_timeout now s).1 ≡ s
unfolding check_timeout
check_timeout-neutral now s h = ground arith

abbrev rewound_state : RequestState → RequestState
rewound_state s = record s {
  input_left = whole_input s.input_buffer;
  counters = record s.counters { rewinds = suc s.counters.rewinds };
}

input_seek-rewinds :
    (offset : ℕ) (set : Bool) (s : RequestState)
    → (set && offset == 0) ≡ true
    → input_seek offset set s ≡ (true, rewound_state s)
unfolding input_seek rewind
input_seek-rewinds offset set s h = ground arith

input_seek-refuses :
    (offset : ℕ) (set : Bool) (s : RequestState)
    → (set && offset == 0) ≡ false
    → input_seek offset set s ≡ (false, s)
unfolding input_seek
input_seek-refuses offset set s h = ground arith

pub perform-Delivers :
    (t : Transfer) (s : RequestState) (whole left buffer : Text)
    → whole_input s.input_buffer ≡ whole
    → s.input_left ≡ left
    → s.output_buffer ≡ buffer
    → (state_of (perform t s)).canceled ≡ false
    → Delivers t whole left buffer (perform t s)
unfolding perform output_write input_read input_seek check_timeout rewind
perform-Delivers (ends r code filetime) s w l b ew el eb h = record {
  output_buffer = eb ∙ sym (append-nil b);
  ended = refl;
}
perform-Delivers (header chunk z k) s w l b ew el eb h =
    let n = still_uncanceled (header chunk z k) s h in
    let (full, same_output, same_left) = header_process-neutral chunk z s n in
    let d : Delivers (k (header_process chunk z s).0) w l b
        (perform (k (header_process chunk z s).0) (header_process chunk z s).1) =
      perform-Delivers (k (header_process chunk z s).0) (header_process chunk z s).1 w l b
        (ap whole_input (header_process-Kept chunk z s).input_buffer ∙ ew) (same_left ∙ el)
        (same_output ∙ eb) h in
    let e =
      subst
        (λ m.
          Delivers (k m) w l b
            (perform (k (header_process chunk z s).0) (header_process chunk z s).1))
        full d in
    record { output_buffer = e.output_buffer; ended = e.ended }
perform-Delivers (output chunk k) s w l b ew el eb h =
    let n = still_uncanceled (output chunk k) s h in
    let t = record s { output_buffer = s.output_buffer ++ chunk } in
    let e : output_write chunk s ≡ (length chunk, t) = rw (output_write, n) refl in
    let d : Delivers (k (length chunk)) w l (b ++ chunk) (perform (k (length chunk)) t) =
      perform-Delivers (k (length chunk)) t w l (b ++ chunk) ew el (ap (λ x. x ++ chunk) eb)
        (rw (perform, e) at h) in
    rw (perform, e)
      (record { output_buffer = d.output_buffer ∙ append_assoc b chunk _; ended = d.ended })
perform-Delivers (input size k) s w l b ew el eb h =
    let n = still_uncanceled (input size k) s h in
    let t = record s { input_left = drop size s.input_left } in
    let e : input_read size s ≡ (take size l, t) = rw (input_read, n, el) refl in
    let d : Delivers (k (take size l)) w (drop size l) b (perform (k (take size l)) t) =
      perform-Delivers (k (take size l)) t w (drop size l) b ew (ap (drop size) el) eb
        (rw (perform, e) at h) in
    rw (perform, e) (record { output_buffer = d.output_buffer; ended = d.ended })
perform-Delivers (seek offset set k) s w l b ew el eb h =
    by_kind (Bool-cases (set && offset == 0))
      (λ t ew' el' eb' h'. perform-Delivers (k true) t w w b ew' el' eb' h')
      (λ h'. perform-Delivers (k false) s w l b ew el eb h')
  where
    by_kind :
        ((set && offset == 0) ≡ true) ⊎ ((set && offset == 0) ≡ false)
        → ((t : RequestState)
            → whole_input t.input_buffer ≡ w
            → t.input_left ≡ w
            → t.output_buffer ≡ b
            → (state_of (perform (k true) t)).canceled ≡ false
            → Delivers (k true) w w b (perform (k true) t))
        → ((state_of (perform (k false) s)).canceled ≡ false
            → Delivers (k false) w l b (perform (k false) s))
        → Delivers (seek offset set k) w l b (perform (seek offset set k) s)
    by_kind (inl y) rewound refused =
        let e = input_seek-rewinds offset set s y in
        let d = rewound (rewound_state s) ew ew eb (rw (perform, e) at h) in
        rw (perform, e)
          (record {
            output_buffer = rw (delivered, y) d.output_buffer;
            ended = rw (ending, y) d.ended;
          })
    by_kind (inr y) rewound refused =
        let e = input_seek-refuses offset set s y in
        let d = refused (rw (perform, e) at h) in
        rw (perform, e)
          (record {
            output_buffer = rw (delivered, y) d.output_buffer;
            ended = rw (ending, y) d.ended;
          })
perform-Delivers (watchdog now k) s w l b ew el eb h =
    let e = check_timeout-neutral now s (still_uncanceled k (check_timeout now s).1 h) in
    let d : Delivers k w l b (perform k s) =
      perform-Delivers k s w l b ew el eb (rw (perform, e) at h) in
    rw (perform, e) (record { output_buffer = d.output_buffer; ended = d.ended })
