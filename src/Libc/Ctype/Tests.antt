-- ===== src/Libc/Ctype/Tests.antt =====
-- The classes at single characters.
use medusa_os.Prelude.{◌≡◌, arith, ok}
use medusa_os.Libc.Ctype.{isdigit, isupper, islower, isspace, iscntrl, toupper, tolower}
use medusa_os.Libc.Ctype.Laws.{isdigit_lem, isspace_lem, toupper_lem}

isdigit_example : (isdigit 57 ≡ ok 0) × (isupper 57 ≡ ok 0) × (islower 57 ≡ ok 0)
isdigit_example = isdigit_lem 57 (omega arith)

isspace_example : (isspace 32 ≡ ok 0) × (iscntrl 32 ≡ ok 0)
isspace_example = isspace_lem 32 (omega arith)

toupper_example : (toupper 122 ≡ ok 122) × (tolower 122 ≡ ok 122)
toupper_example = toupper_lem 122 (omega arith)
