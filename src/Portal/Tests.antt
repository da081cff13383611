-- ===== src/Portal/Tests.antt =====
-- Runs of the portal name functions, and their theorems at concrete inputs.
use typeorm_procedure_kit.Common.{◌≡◌, ◌≢◌, ◌↔◌, refl, [], ◌++◌, ok, some}
use typeorm_procedure_kit.Common.Text.{codes, trim}
use typeorm_procedure_kit.Value.{string}
use typeorm_procedure_kit.Portal.{quote, double_quotes, assert_returned}
use typeorm_procedure_kit.Portal.Safety.{IsCommonSafe, assert_returned-ok_iff}
use typeorm_procedure_kit.Portal.Unnamed.{IsUnnamed}
use typeorm_procedure_kit.Portal.Quoting.{read_quoted-quote}
use typeorm_procedure_kit.Identifier.Quoting.{read_quoted}

doubled : quote (codes "a\"b") ≡ codes "\"a\"\"b\""
unfolding quote double_quotes
doubled = refl

read_quoted-quote_example :
    read_quoted (quote (codes "a\"b") ++ codes ";") ≡ some (codes "a\"b", codes ";")
read_quoted-quote_example = read_quoted-quote (codes "a\"b") (codes ";") (λ e. cc)

assert_returned-ok_iff_example : (assert_returned (string (codes "c1")) ≡ ok (codes "c1")) ↔ (
    (codes "c1" ≡ codes "c1")
    × (codes "c1" ≢ [])
    × IsCommonSafe (codes "c1")
    × (¬ IsUnnamed (trim (codes "c1"))))
assert_returned-ok_iff_example = assert_returned-ok_iff (codes "c1") (codes "c1")
