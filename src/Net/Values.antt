-- ===== src/Net/Values.antt =====
-- The errors of src/values.rs. An error of another crate is the text that it prints.
use tunm.Prelude.{◌≡◌, refl, ap, Bool, true, false, Option, none, some, String}
use tunm.Prelude.Maps.{string_eq}
use native.Mathlib.Omega.{arith}
use Prim.Native.String.{◌++◌ as ◌+++◌}

pub data ErrorKind : Type 0 where
  no_left_space_error buffer_over_max_error type_not_match_error parse_error : ErrorKind
  missing_error string_format_error sql_error io_error rp_error mysql_error : ErrorKind
  extension_error : ErrorKind

pub data NetError : Type 0 where
  with_description : ErrorKind → String → NetError
  with_description_and_detail : ErrorKind → String → String → NetError
  extension : String → String → NetError
  io rp mysql : String → NetError

-- `NetResult<T>`.
pub data NetResult {ℓ} (A : Type ℓ) : Type ℓ where
  success : A → NetResult A
  failure : NetError → NetResult A

-- A computation on a state, which may end with an error.
abbrev pub Step : Type 0 → Type 0 → Type 0
Step S A = S → S × NetResult A

abbrev pub after : {S A B : Type 0} → (A → Step S B) → S × NetResult A → S × NetResult B
after f (s, success a) = f a s
after f (s, failure e) = (s, failure e)

infixl 5 ◌>>=◌ ◌>>◌
unfoldable pub ◌>>=◌ : {S A B : Type 0} → Step S A → (A → Step S B) → Step S B
(m >>= f) s = after f (m s)

abbrev pub ◌>>◌ : {S B : Type 0} → Step S (Unit {0}) → Step S B → Step S B
m >> k = m >>= λ _. k

abbrev pub return : {S A : Type 0} → A → Step S A
return a s = (s, success a)

abbrev pub fail : {S A : Type 0} → NetError → Step S A
fail e s = (s, failure e)

abbrev pub modify : {S : Type 0} → (S → S) → Step S (Unit {0})
modify f s = (f s, success tt)

abbrev same_kind : ErrorKind → ErrorKind → Bool
same_kind no_left_space_error no_left_space_error = true
same_kind buffer_over_max_error buffer_over_max_error = true
same_kind type_not_match_error type_not_match_error = true
same_kind parse_error parse_error = true
same_kind missing_error missing_error = true
same_kind string_format_error string_format_error = true
same_kind sql_error sql_error = true
same_kind io_error io_error = true
same_kind rp_error rp_error = true
same_kind mysql_error mysql_error = true
same_kind extension_error extension_error = true
same_kind _ _ = false

-- `PartialEq` of `NetError`.
unfoldable pub eq : NetError → NetError → Bool
eq (with_description a _) (with_description b _) = same_kind a b
eq (with_description_and_detail a _ _) (with_description_and_detail b _ _) = same_kind a b
eq (extension a _) (extension b _) = string_eq.beq a b
eq _ _ = false

unfoldable pub kind : NetError → ErrorKind
kind (with_description k _) = k
kind (with_description_and_detail k _ _) = k
kind (extension _ _) = extension_error
kind (io _) = io_error
kind (rp _) = rp_error
kind (mysql _) = mysql_error

category_of : ErrorKind → String
category_of no_left_space_error = "no left space error"
category_of buffer_over_max_error = "buffer over max error"
category_of type_not_match_error = "type not match error"
category_of parse_error = "parse error"
category_of missing_error = "missing error"
category_of string_format_error = "string format error"
category_of sql_error = "sql error"
category_of io_error = "I/O error"
category_of extension_error = "extension error"
category_of rp_error = "rust protocol error"
category_of mysql_error = "mysql error"

unfoldable pub category : NetError → String
unfolding category_of kind
category e = category_of (kind e)

unfoldable pub is_io_error : NetError → Bool
unfolding kind
is_io_error e = elim (kind e) [ io_error ↦ true | _ ↦ false ]

-- `fmt::Display`, of which `fmt::Debug` is a copy.
unfoldable pub fmt : NetError → String
fmt (with_description _ desc) = desc
fmt (with_description_and_detail _ desc detail) = (desc +++ ": ") +++ detail
fmt (extension code detail) = (code +++ ": ") +++ detail
fmt (io err) = err
fmt (rp err) = err
fmt (mysql err) = err

-- `cause`: only an error of the operating system has one, itself.
unfoldable pub cause : NetError → Option String
cause (io err) = some err
cause _ = none

unfoldable pub extension_error_code : NetError → Option String
extension_error_code (extension code _) = some code
extension_error_code _ = none

unfoldable pub extension_error_detail : NetError → Option String
extension_error_detail (extension _ detail) = some detail
extension_error_detail (with_description_and_detail _ _ detail) = some detail
extension_error_detail _ = none

unfoldable pub make_extension_error : String → Option String → NetError
make_extension_error code (some detail) = extension code detail
make_extension_error code none = extension code "Unknown extension error encountered"

same_kind_lem : (a b : ErrorKind) → same_kind a b ≡ true → a ≡ b
same_kind_lem no_left_space_error b h = ground arith
same_kind_lem buffer_over_max_error b h = ground arith
same_kind_lem type_not_match_error b h = ground arith
same_kind_lem parse_error b h = ground arith
same_kind_lem missing_error b h = ground arith
same_kind_lem string_format_error b h = ground arith
same_kind_lem sql_error b h = ground arith
same_kind_lem io_error b h = ground arith
same_kind_lem rp_error b h = ground arith
same_kind_lem mysql_error b h = ground arith
same_kind_lem extension_error b h = ground arith

-- Errors that compare equal are of the same kind and category, and have the same extension code.
pub eq-kind :
    (a b : NetError)
    → eq a b ≡ true
    → (kind a ≡ kind b)
      × (category a ≡ category b)
      × (extension_error_code a ≡ extension_error_code b)
unfolding eq kind category extension_error_code
eq-kind (with_description a _) (with_description b _) h =
    let e = same_kind_lem a b h in (e, ap category_of e, refl)
eq-kind (with_description_and_detail a _ _) (with_description_and_detail b _ _) h =
    let e = same_kind_lem a b h in (e, ap category_of e, refl)
eq-kind (extension a _) (extension b _) h = (refl, refl, ap some ((string_eq.beq_iff a b).0 h))
eq-kind _ _ h = absurd (cc)

-- A chain goes on from where its first step came, or ends there.
pub >>=-success :
    {S A B : Type 0} (m : Step S A) (f : A → Step S B) {s s' : S} {a : A}
    → m s ≡ (s', success a)
    → (m >>= f) s ≡ f a s'
unfolding ◌>>=◌
>>=-success m f h = ap (after f) h

pub >>=-failure :
    {S A B : Type 0} (m : Step S A) (f : A → Step S B) {s s' : S} {e : NetError}
    → m s ≡ (s', failure e)
    → (m >>= f) s ≡ (s', failure e)
unfolding ◌>>=◌
>>=-failure m f h = ap (after f) h

pub >>=-eq-success :
    {S A B : Type 0} (m : Step S A) (f : A → Step S B) {s : S} {end : B}
    → ((m >>= f) s).1 ≡ success end
    → (between : S) × (a : A) × (m s ≡ (between, success a)) × ((f a between).1 ≡ success end)
unfolding ◌>>=◌
>>=-eq-success {S} {A} m f {s} {end} h = split (m s) refl h
  where
    split :
        (o : S × NetResult A)
        → m s ≡ o
        → (after f o).1 ≡ success end
        → (between : S) × (a : A) × (m s ≡ (between, success a)) × ((f a between).1 ≡ success end)
    split (t, success a) e h' = (t, a, e, h')
    split (t, failure err) e h' = absurd (cc)

-- A change of the state goes on from the changed state.
pub modify_then :
    {S B : Type 0} (g : S → S) (f : Unit {0} → Step S B) {s : S} {r : S × NetResult B}
    → f tt (g s) ≡ r
    → (modify g >>= f) s ≡ r
unfolding ◌>>=◌
modify_then g f h = h

pub success-injective {ℓ} : {A : Type ℓ} {a b : A} → success a ≡ success b → a ≡ b
success-injective h = cc
