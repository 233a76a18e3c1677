-- ===== src/Machine/Terminal/Output.antt =====
-- The output of the terminal (machine/terminal.go): its writer gets the bytes up to the first error.
use Prim.Native.String.{String}
use retronet.Base.{ℕ, ◌≡◌, refl, arith, List, [], ◌∷◌, Option, none, some, sym, subst, ◌∙◌, ap}
use retronet.Machine.Terminal.{Terminal, Writer, emit, write_output}

module _ {W : Type 0} ⦃writer : Writer W⦄ where
  -- From a writer, a list of bytes takes it to an error or none and to a writer: byte by byte, each
  -- accepted but perhaps the last one tried.
  pub data Delivers : Option W → List ℕ → Option String → Option W → Type 0 where
    all_done : (w : Option W) → Delivers w [] none w
    accepted :
        {w next last : Option W} {value : ℕ} {bytes : List ℕ} {e : Option String}
        → emit value w ≡ (none, next)
        → Delivers next bytes e last
        → Delivers w (value ∷ bytes) e last
    refused :
        {w next : Option W} {value : ℕ} {bytes : List ℕ} {text : String}
        → emit value w ≡ (some text, next)
        → Delivers w (value ∷ bytes) (some text) next

  -- the output callback for a list of values
  unfoldable pub write_outputs : ℕ → List ℕ → Terminal W → Terminal W
  write_outputs port [] t = t
  write_outputs port (value ∷ bytes) t = write_outputs port bytes (write_output port value t)

  write_outputs-failed :
      (port : ℕ) (bytes : List ℕ) (t : Terminal W) (text : String)
      → t.err ≡ some text
      → write_outputs port bytes t ≡ t
  unfolding write_outputs write_output
  write_outputs-failed port [] t text e = refl
  write_outputs-failed port (value ∷ bytes) t text e =
      let kept : write_output port value t ≡ t = ground arith in
      subst (λ u. write_outputs port bytes u ≡ t) (sym kept)
        (write_outputs-failed port bytes t text e)

  written :
      (port value : ℕ) (t : Terminal W) (x : Option String × Option W)
      → t.err ≡ none
      → emit value t.output ≡ x
      → write_output port value t ≡ record t { output = x.1; err = x.0 }
  unfolding write_output
  written port value t x e f =
      rw e
        (ap (λ (y : Option String × Option W). let u = record t { output = y.1; err = y.0 } in u) f)

  delivered :
      (port : ℕ) (bytes : List ℕ) (value : ℕ) (t : Terminal W) (x : Option String × Option W)
      → t.err ≡ none
      → emit value t.output ≡ x
      → ((u : Terminal W)
          → u.err ≡ none
          → Delivers u.output bytes
              (write_outputs port bytes u).err
              (write_outputs port bytes u).output)
      → let u = write_outputs port (value ∷ bytes) t in
        Delivers t.output (value ∷ bytes) u.err u.output
  unfolding write_outputs
  delivered port bytes value t (none, next) e f later =
      let u = record t { output = next; err = none } in
      let r = written port value t (none, next) e f in
      subst
        (λ v.
          Delivers t.output (value ∷ bytes) (write_outputs port bytes v).err
            (write_outputs port bytes v).output)
        (sym r) (accepted f (later u refl))
  delivered port bytes value t (some text, next) e f later =
      let u = record t { output = next; err = some text } in
      let r = written port value t (some text, next) e f in
      subst (λ v. Delivers t.output (value ∷ bytes) v.err v.output)
        (sym (ap (write_outputs port bytes) r ∙ write_outputs-failed port bytes u text refl))
        (refused f)

  -- A terminal without an error hands the bytes to its writer one by one, in order, up to the first that
  -- the writer refuses: it keeps that error, and the writer gets none of the bytes behind it.
  pub write_outputs-Delivers :
      (port : ℕ) (bytes : List ℕ) (t : Terminal W)
      → t.err ≡ none
      → Delivers t.output bytes (write_outputs port bytes t).err (write_outputs port bytes t).output
  unfolding write_outputs
  write_outputs-Delivers port [] t e = rw (e, write_outputs) (all_done t.output)
  write_outputs-Delivers port (value ∷ bytes) t e =
      delivered port bytes value t (emit value t.output) e refl
        (λ u f. write_outputs-Delivers port bytes u f)
