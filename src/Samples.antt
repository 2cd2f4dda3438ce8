-- ===== src/Samples.antt =====
-- Concrete data for the tests and the witnesses: a UUID package that prints in unary.
use Prim.Native.String.{[], ◌∷◌}
use Prim.Native.Char.{nul}
use go_payment.Prelude.{ℕ, zero, suc, ◌+◌, String, ◌≡◌, refl, ap, some}
use go_payment.Uuid.{UuidPackage, ReadsBack, Source}

abbrev pub unary : ℕ → String
unary zero = []
unary (suc n) = nul ∷ unary n

abbrev pub length_of : String → ℕ
length_of [] = 0
length_of (c ∷ s) = suc (length_of s)

length_of-unary : (n : ℕ) → length_of (unary n) ≡ n
length_of-unary zero = refl
length_of-unary (suc n) = ap suc (length_of-unary n)

abbrev pub unary_uuid : UuidPackage
unary_uuid = record { parse = λ s. some (length_of s); to_string = unary }

pub unary_uuid-ReadsBack : ReadsBack unary_uuid
unary_uuid-ReadsBack u = ap some (length_of-unary u)

-- Ids and times that count up from a number.
abbrev pub counting : ℕ → Source
counting n = record { id = λ k. n + k; time = λ k. n + k }
