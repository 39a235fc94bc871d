-- ===== src/Pldmd/Base/Tables.antt =====
-- pldmd/src/base.cpp: which PLDM types and commands a terminus supports.
pub mod Announced
use pmci.Prelude.{
  ℕ, zero, suc, ◌+◌, ◌*◌, ◌/◌, ◌%◌, Bool, true, false, List, [], ◌∷◌, ◌++◌, Option, none, some,
  Bytes, get_or, ◌==◌, if◌then◌else◌,
}
use pmci.Prelude.Map.{Map, find, assign}
use pmci.Pldmd.Transport.Bus.{Bus}
use pmci.Pldmd.Base.Requests.{BaseCodec, get_pldm_commands}
use pmci.Pldmd.Base.Versions.{get_pldm_versions}

-- Whether a bit of a number is set, counted from the right.
abbrev pub bit : ℕ → ℕ → Bool
bit zero n = n % 2 == 1
bit (suc i) n = bit i (n / 2)

-- The bits of one byte that are left, the first of them standing for the type `code`.
unfoldable pub codes_of_byte : ℕ → ℕ → ℕ → List ℕ
codes_of_byte code zero byte = []
codes_of_byte code (suc left) byte =
    let rest = codes_of_byte (code + 1) left (byte / 2) in
    if byte % 2 == 1 then code ∷ rest else rest

-- From the `i`-th byte on.
unfoldable pub codes_from : ℕ → Bytes → List ℕ
codes_from i [] = []
codes_from i (byte ∷ bytes) = codes_of_byte (i * 8) 8 byte ++ codes_from (i + 1) bytes

unfoldable pub get_type_codes_from_supported_types : Bytes → List ℕ
get_type_codes_from_supported_types supported_types = codes_from 0 supported_types

abbrev pub VersionSupportTable : Type 0
VersionSupportTable = Map (List Bytes)

-- For each type, the versions with their 32 bytes of commands.
abbrev pub CommandSupportTable : Type 0
CommandSupportTable = Map (List (Bytes × Bytes))

abbrev pub add_versions : ℕ → Option (List Bytes) → VersionSupportTable → VersionSupportTable
add_versions pldm_type none table = table
add_versions pldm_type (some versions) table = assign pldm_type versions table

-- The types that are left. The set in which the source has them is not ordered; here they rise.
unfoldable pub version_table_from :
    BaseCodec → ℕ → List ℕ → VersionSupportTable → Bus → Bus × VersionSupportTable
version_table_from lib eid [] table b = (b, table)
version_table_from lib eid (pldm_type ∷ types) table b =
    let r = get_pldm_versions lib eid pldm_type b in
    version_table_from lib eid types (add_versions pldm_type r.1 table) r.0

unfoldable pub create_version_support_table :
    BaseCodec → ℕ → Bytes → Bus → Bus × VersionSupportTable
create_version_support_table lib eid pldm_types b =
    version_table_from lib eid (get_type_codes_from_supported_types pldm_types) [] b

abbrev pub add_commands : ℕ → Bytes → Option Bytes → CommandSupportTable → CommandSupportTable
add_commands pldm_type version none table = table
add_commands pldm_type version (some commands) table =
    assign pldm_type ((version, commands) ∷ []) table

-- Only the first version of a type is asked for its commands.
unfoldable pub command_table_from :
    BaseCodec → ℕ → VersionSupportTable → CommandSupportTable → Bus → Bus × CommandSupportTable
command_table_from lib eid [] table b = (b, table)
command_table_from lib eid ((pldm_type, []) ∷ versions) table b =
    command_table_from lib eid versions table b
command_table_from lib eid ((pldm_type, first_version ∷ others) ∷ versions) table b =
    let r = get_pldm_commands lib eid pldm_type first_version b in
    command_table_from lib eid versions (add_commands pldm_type first_version r.1 table) r.0

unfoldable pub create_command_support_table :
    BaseCodec → ℕ → VersionSupportTable → Bus → Bus × CommandSupportTable
create_command_support_table lib eid versions b = command_table_from lib eid versions [] b

abbrev any_supports : ℕ → List (Bytes × Bytes) → Bool
any_supports cmd [] = false
any_supports cmd ((version, commands) ∷ rest) =
    if bit (cmd % 8) (get_or commands (cmd / 8) 0) then true else any_supports cmd rest

abbrev supported_in : Option (List (Bytes × Bytes)) → ℕ → Bool
supported_in none cmd = false
supported_in (some tables) cmd = any_supports cmd tables

unfoldable pub is_supported : CommandSupportTable → ℕ → ℕ → Bool
is_supported table pldm_type cmd = supported_in (find pldm_type table) cmd
