-- ===== src/Runtime/Texts.antt =====
-- src/error.rs: the texts of the errors (`Display`).
use Prim.Native.String.{String, ◌++◌}
use text.Mathlib.Text.{starts_with, ◌==◌}
use text.Mathlib.TextPositions.{starts_with-append, eq_refl}
use text.Mathlib.TextLemmas.{append_cancel_left}
use resourcery.Base.{false, ◌≡◌, ◌≢◌, refl, ap, sym}
use resourcery.Context.{AcquireError, occupied, shutting_down, construction_panicked}
use resourcery.Runtime.{RunError, acquire, resource, panicked_with, was_aborted}

unfoldable pub acquire_text : AcquireError → String
acquire_text occupied = "the canonical resource is already live or starting"
acquire_text shutting_down = "the resource domain is shutting down"
acquire_text construction_panicked = "resource construction panicked"

-- `text` is the `Display` of the application's error type.
unfoldable pub run_text : {E : Type 0} → (E → String) → RunError E → String
unfolding acquire_text
run_text text (acquire error) = acquire_text error
run_text text (resource error) = text error
run_text text (panicked_with message) = "root resource panicked: " ++ message
run_text text was_aborted = "root resource was aborted"

-- The errors whose texts are this crate's own.
abbrev pub IsOwn : {E : Type 0} → RunError E → Type 0
IsOwn (resource error) = ⊥
IsOwn _ = Unit {0}

acquire_text-injective : (a b : AcquireError) → acquire_text a ≡ acquire_text b → a ≡ b
unfolding acquire_text
acquire_text-injective occupied occupied e = refl
acquire_text-injective occupied shutting_down e = cc
acquire_text-injective occupied construction_panicked e = cc
acquire_text-injective shutting_down occupied e = cc
acquire_text-injective shutting_down shutting_down e = refl
acquire_text-injective shutting_down construction_panicked e = cc
acquire_text-injective construction_panicked occupied e = cc
acquire_text-injective construction_panicked shutting_down e = cc
acquire_text-injective construction_panicked construction_panicked e = refl

abbrev lead : String
lead = "root resource panicked: "

-- A text that begins otherwise is not the text of a panic.
no-lead : (s m : String) → starts_with s lead ≡ false → s ≢ lead ++ m
no-lead s m h e = cc (h, ap (λ (t : String). starts_with t lead) e, starts_with-append lead m)

acquire-panicked : (a : AcquireError) (m : String) → acquire_text a ≢ lead ++ m
unfolding acquire_text
acquire-panicked occupied m = no-lead _ m refl
acquire-panicked shutting_down m = no-lead _ m refl
acquire-panicked construction_panicked m = no-lead _ m refl

-- Texts that a test tells apart differ.
apart : (s t : String) → (s == t) ≡ false → s ≢ t
apart s t h e = cc (h, ap (λ (u : String). s == u) e, eq_refl s)

acquire-aborted : (a : AcquireError) → acquire_text a ≢ "root resource was aborted"
unfolding acquire_text
acquire-aborted occupied = apart _ "root resource was aborted" refl
acquire-aborted shutting_down = apart _ "root resource was aborted" refl
acquire-aborted construction_panicked = apart _ "root resource was aborted" refl

panicked-aborted : (m : String) → lead ++ m ≢ "root resource was aborted"
panicked-aborted m e = no-lead "root resource was aborted" m refl (sym e)

-- Two errors of `run` that are not errors of the application have different texts, unless they are
-- the same: the text tells why the root was not acquired, and with what message it panicked.
pub run_text-injective :
    {E : Type 0} (text : E → String) (a b : RunError E)
    → IsOwn a
    → IsOwn b
    → run_text text a ≡ run_text text b
    → a ≡ b
unfolding run_text
run_text-injective text (acquire a) (acquire b) h k e = ap acquire (acquire_text-injective a b e)
run_text-injective text (acquire a) (panicked_with m) h k e = absurd (acquire-panicked a m e)
run_text-injective text (acquire a) was_aborted h k e = absurd (acquire-aborted a e)
run_text-injective text (panicked_with m) (acquire b) h k e = absurd (acquire-panicked b m (sym e))
run_text-injective text (panicked_with m) (panicked_with n) h k e =
    ap panicked_with (append_cancel_left lead m n e)
run_text-injective text (panicked_with m) was_aborted h k e = absurd (panicked-aborted m e)
run_text-injective text was_aborted (acquire b) h k e = absurd (acquire-aborted b (sym e))
run_text-injective text was_aborted (panicked_with n) h k e = absurd (panicked-aborted n (sym e))
run_text-injective text was_aborted was_aborted h k e = refl
run_text-injective text (resource a) b h k e = absurd h
run_text-injective text a (resource b) h k e = absurd k
