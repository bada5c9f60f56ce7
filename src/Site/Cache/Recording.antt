-- ===== src/Site/Cache/Recording.antt =====
-- The recorder of internal/site/middleware.go is transparent, and its buffer is what was sent.
use lamund.Prelude.{
  ℕ, ◌≡◌, refl, sym, ap, ◌∙◌, List, [], ◌∷◌, ◌++◌, append_assoc, append-nil, arith, Bytes,
}
use lamund.Site.Http.{
  Header, Writer, write_header, write, Call, set, add, del, status, body, perform, perform_each,
}
use lamund.Site.Cache.{Recorder, record_call, record_each, copy_header}

write-write_header : (p : Bytes) (w : Writer) → write p (write_header 200 w) ≡ write p w
unfolding write write_header
write-write_header p w = ground arith

inner-record_call : (c : Call) (r : Recorder) → (record_call c r).inner ≡ perform c r.inner
unfolding record_call perform
inner-record_call (set k v) r = refl
inner-record_call (add k v) r = refl
inner-record_call (del k) r = refl
inner-record_call (status code) r = refl
inner-record_call (body p) r = ground (arith, write-write_header p r.inner)

-- The client receives what the handler writes.
pub inner-record_each :
    (cs : List Call) (r : Recorder) → (record_each cs r).inner ≡ perform_each cs r.inner
unfolding record_each perform_each
inner-record_each [] r = refl
inner-record_each (c ∷ cs) r =
    inner-record_each cs (record_call c r) ∙ ap (perform_each cs) (inner-record_call c r)

body-write_header : (code : ℕ) (w : Writer) → (write_header code w).body ≡ w.body
unfolding write_header
body-write_header code w = ground arith

body-record_call :
    (c : Call) (r : Recorder) (start : Bytes)
    → r.inner.body ≡ start ++ r.buf
    → (record_call c r).inner.body ≡ start ++ (record_call c r).buf
unfolding record_call perform write
body-record_call (set k v) r start h = h
body-record_call (add k v) r start h = h
body-record_call (del k) r start h = h
body-record_call (status code) r start h = body-write_header code r.inner ∙ h
body-record_call (body p) r start h =
    rw (body-write_header)
      (ground (arith, body-write_header 200 r.inner, append_assoc start r.buf p))

-- The buffer holds what was added to the body.
pub body-record_each :
    (cs : List Call) (r : Recorder) (start : Bytes)
    → r.inner.body ≡ start ++ r.buf
    → (record_each cs r).inner.body ≡ start ++ (record_each cs r).buf
unfolding record_each
body-record_each [] r start h = h
body-record_each (c ∷ cs) r start h =
    body-record_each cs (record_call c r) start (body-record_call c r start h)

pub copy_header-append : (dst src : Header) → copy_header dst src ≡ dst ++ src
unfolding copy_header
copy_header-append dst [] = sym (append-nil dst)
copy_header-append dst ((k, v) ∷ src) =
    copy_header-append (dst ++ (k, v) ∷ []) src ∙ append_assoc dst ((k, v) ∷ []) src
