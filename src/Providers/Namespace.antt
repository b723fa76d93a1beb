-- ===== src/Providers/Namespace.antt =====
-- src/chainbreak/providers/base/namespace.py: a reference belongs to a namespace whose text it contains.
use chainbreak.Common.{not}
use chainbreak.Common.Text.{Text, contains_text}
use chainbreak.Core.Errors.{Result, raise_if, namespace_violation_error}

unfoldable pub assert_namespace : Text → Text → Result (Unit {0})
assert_namespace ref namespace =
    raise_if (not (contains_text namespace ref)) namespace_violation_error
