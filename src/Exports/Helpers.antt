-- ===== src/Exports/Helpers.antt =====
-- The tables of functions of Runtime/Bindings/FFI/cpp, crypto, curl, iconv, stduuid, runtime:
-- the struct of the header, what getExportsTable assigns, and the declaration for Lua.
use evo_runtime.Common.{[], ◌∷◌}
use evo_runtime.Exports.Tables.{StructMembers, Assignments, own}

abbrev pub cpp_exports_table : StructMembers
cpp_exports_table = "bit_ceil" ∷ "bit_floor" ∷ "bit_width" ∷ "has_single_bit" ∷ []

abbrev pub cpp_exports : Assignments
cpp_exports =
    ("bit_ceil", "std::bit_ceil")
    ∷ ("bit_floor", "std::bit_floor")
    ∷ ("bit_width", "std_bit_width")
    ∷ ("has_single_bit", "std::has_single_bit")
    ∷ []

abbrev pub cpp_cdef : StructMembers
cpp_cdef = "bit_ceil" ∷ "bit_floor" ∷ "bit_width" ∷ "has_single_bit" ∷ []

abbrev pub crypto_exports_table : StructMembers
crypto_exports_table =
    "version_text" ∷ "version_number" ∷ "openssl_to_base64" ∷ "openssl_from_base64"
    ∷ "argon2_to_base64" ∷ "argon2_from_base64" ∷ "openssl_kdf_derive" ∷ "openssl_crypto_memcmp"
    ∷ []

abbrev pub crypto_exports : Assignments
crypto_exports =
    ("version_text", "getVersionText")
    ∷ ("version_number", "getVersionNumber")
    ∷ own "openssl_to_base64"
    ∷ own "openssl_from_base64"
    ∷ own "argon2_to_base64"
    ∷ own "argon2_from_base64"
    ∷ own "openssl_kdf_derive"
    ∷ ("openssl_crypto_memcmp", "CRYPTO_memcmp")
    ∷ []

abbrev pub crypto_cdef : StructMembers
crypto_cdef =
    "version_text" ∷ "version_number" ∷ "openssl_to_base64" ∷ "openssl_from_base64"
    ∷ "argon2_to_base64" ∷ "argon2_from_base64" ∷ "openssl_kdf_derive" ∷ "openssl_crypto_memcmp"
    ∷ []

abbrev pub curl_exports_table : StructMembers
curl_exports_table =
    "curl_version_now" ∷ "curl_version_info" ∷ "curl_free" ∷ "curl_url" ∷ "curl_url_cleanup"
    ∷ "curl_url_dup" ∷ "curl_url_get" ∷ "curl_url_set" ∷ "curl_url_strerror" ∷ []

abbrev pub curl_exports : Assignments
curl_exports =
    own "curl_version_now"
    ∷ own "curl_version_info"
    ∷ own "curl_free"
    ∷ own "curl_url"
    ∷ own "curl_url_cleanup"
    ∷ own "curl_url_dup"
    ∷ own "curl_url_get"
    ∷ own "curl_url_set"
    ∷ own "curl_url_strerror"
    ∷ []

abbrev pub curl_cdef : StructMembers
curl_cdef =
    "curl_version_now" ∷ "curl_version_info" ∷ "curl_free" ∷ "curl_url" ∷ "curl_url_cleanup"
    ∷ "curl_url_dup" ∷ "curl_url_get" ∷ "curl_url_set" ∷ "curl_url_strerror" ∷ []

abbrev pub iconv_exports_table : StructMembers
iconv_exports_table =
    "iconv_open" ∷ "iconv_close" ∷ "iconv" ∷ "iconv_convert" ∷ "iconv_try_close" ∷ "iconv_strerror"
    ∷ "iconv_check_result" ∷ []

abbrev pub iconv_exports : Assignments
iconv_exports =
    own "iconv_open"
    ∷ own "iconv_close"
    ∷ own "iconv"
    ∷ own "iconv_convert"
    ∷ own "iconv_try_close"
    ∷ own "iconv_strerror"
    ∷ own "iconv_check_result"
    ∷ []

abbrev pub iconv_cdef : StructMembers
iconv_cdef =
    "iconv_open" ∷ "iconv_close" ∷ "iconv" ∷ "iconv_convert" ∷ "iconv_try_close" ∷ "iconv_strerror"
    ∷ "iconv_check_result" ∷ []

abbrev pub stduuid_exports_table : StructMembers
stduuid_exports_table =
    "stduuid_version" ∷ "uuid_create_v4" ∷ "uuid_create_mt19937" ∷ "uuid_create_v5"
    ∷ "uuid_create_system" ∷ []

abbrev pub stduuid_exports : Assignments
stduuid_exports =
    own "stduuid_version"
    ∷ own "uuid_create_v4"
    ∷ own "uuid_create_mt19937"
    ∷ own "uuid_create_v5"
    ∷ own "uuid_create_system"
    ∷ []

abbrev pub stduuid_cdef : StructMembers
stduuid_cdef =
    "stduuid_version" ∷ "uuid_create_v4" ∷ "uuid_create_mt19937" ∷ "uuid_create_v5"
    ∷ "uuid_create_system" ∷ []

abbrev pub runtime_exports_table : StructMembers
runtime_exports_table = "runtime_version" ∷ "runtime_repl_start" ∷ []

abbrev pub runtime_exports : Assignments
runtime_exports = own "runtime_version" ∷ own "runtime_repl_start" ∷ []

abbrev pub runtime_cdef : StructMembers
runtime_cdef = "runtime_version" ∷ "runtime_repl_start" ∷ []
