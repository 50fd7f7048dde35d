-- ===== src/Tests/Rules.antt =====
-- The rules on modes, rights, times and numbers at concrete values.
use dbfs.Prelude.{◌+◌, ◌≡◌, arith}
use dbfs.Prelude.Res.{ok}
use dbfs.Common.Error.{DbfsError}
use dbfs.Common.Permission.{directory, file_type_of}
use dbfs.Access.{checkout_access, clear_suid_sgid}
use dbfs.Access.Spec.{posix_access}
use dbfs.Access.Posix.{checkout_access-eq-posix}
use dbfs.Access.SetId.{clear_suid_sgid_lem, without_set_ids, file_type_of-type_bits, type_bits}

checkout_access-eq-posix_example :
    checkout_access 1000 100 0o640 1001 100 4 ≡ posix_access 1000 100 0o640 1001 100 4
checkout_access-eq-posix_example = checkout_access-eq-posix 1000 100 0o640 1001 100 4 (omega arith)

clear_suid_sgid_lem_example : clear_suid_sgid 0o106755 ≡ without_set_ids 0o106755
clear_suid_sgid_lem_example = clear_suid_sgid_lem 0o106755 (omega arith)

file_type_of-type_bits_example :
    file_type_of {E = DbfsError} (type_bits directory + 0o755) ≡ ok directory
file_type_of-type_bits_example = file_type_of-type_bits directory 0o755 (omega arith)
