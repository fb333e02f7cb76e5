-- ===== src/LogStream.antt =====
-- `NewLineStream` and `NewLine` of app/LogUtils.h, which log one line for each statement `logInfo
-- << t << ...`. A text is the list of its characters as codes; what a value looks like as text
-- (`ostringstream`) is given. The heap is the list of the buffers that were allocated, with `none`
-- for one that was deleted; a pointer to one is its index.
pub mod Line
use xpcie.Base.{
  ℕ, zero, suc, Bool, true, false, Option, none, some, List, [], ◌∷◌, ◌++◌, length, Run, done, oops,
  ◌>>=◌, update_at, if◌then◌else◌,
}

abbrev pub Text : Type 0
Text = List ℕ

-- The buffers, and what `std::cout` was given.
pub record Log : Type 0 where
  pub buffers : List (Option Text)
  pub printed : Text

-- The buffer of an object; `_buffer` is not NULL before the destructor.
-- `NewLineStream::NewLineStream`
abbrev pub new_stream : Text → Log → ℕ × Log
new_stream t log = (length log.buffers, record log { buffers = log.buffers ++ (some t ∷ []) })

-- A text appended to a buffer that is there.
abbrev pub appended : Text → Option Text → Run (Option Text)
appended t none = oops
appended t (some s) = done (some (s ++ t))

-- `NewLineStream::operator<<`
unfoldable pub append : (buffer : ℕ) → Text → Log → Run Log
append buffer t log = do
  buffers ← update_at log.buffers buffer (appended t)
  done (record log { buffers = buffers })

-- `str()` of a buffer that is there, printed with `std::endl`.
abbrev pub printed_line : Option Text → Run Text
printed_line none = oops
printed_line (some s) = done (s ++ (0x0a ∷ []))

abbrev pub read_at : List (Option Text) → ℕ → Option Text
read_at [] i = none
read_at (b ∷ buffers) zero = b
read_at (b ∷ buffers) (suc i) = read_at buffers i

-- `NewLineStream::~NewLineStream`
unfoldable pub destroy : (buffer : ℕ) → Log → Run Log
destroy buffer log = do
  line ← printed_line (read_at log.buffers buffer)
  buffers ← update_at log.buffers buffer (λ b. done none)
  done (record { buffers = buffers; printed = log.printed ++ line })

-- `NewLine::operator<<`: what it returns is the object that it makes if the compiler elides the copy;
-- else it is a copy with the same pointer, and the object is destroyed.
unfoldable pub new_line : (elided : Bool) → Text → Log → Run (ℕ × Log)
new_line true t log = done (new_stream t log)
new_line false t log = do
  let (buffer, made) = new_stream t log
  left ← destroy buffer made
  done (buffer, left)

-- The further `<<` of a statement.
unfoldable pub append_all : (buffer : ℕ) → List Text → Log → Run Log
append_all buffer [] log = done log
append_all buffer (t ∷ texts) log = do after ← append buffer t log; append_all buffer texts after

-- A statement `globalNewLineObject << first << ...;`: the object that is returned ends with it.
unfoldable pub statement : (elided : Bool) → (first : Text) → List Text → Log → Run Log
statement elided first texts log = do
  (buffer, made) ← new_line elided first log
  left ← append_all buffer texts made
  destroy buffer left
