-- ===== src/Net/Errors.antt =====
-- bbt/infra/net/Error.hpp, and the `std::error_code` values that the modelled code makes.
-- An error code is its category with its value.
use bbtools_infra.Common.{ℕ, zero, suc, Bool, true, false, if◌then◌else◌, ◌==◌}

pub data Errc : Type 0 where
  invalid_argument result_out_of_range no_buffer_space not_enough_memory operation_canceled : Errc

-- `enum class NetErrc`; `unnamed` is an `int` that names no enumerator.
pub data NetErrc : Type 0 where
  eof would_block busy write_settling rejected closed : NetErrc
  unnamed : ℕ → NetErrc

unfoldable pub net_value : NetErrc → ℕ
net_value eof = 1
net_value would_block = 2
net_value busy = 3
net_value write_settling = 4
net_value rejected = 5
net_value closed = 6
net_value (unnamed n) = n

-- `static_cast<NetErrc>` of a value.
unfoldable pub net_of_value : ℕ → NetErrc
net_of_value n =
    if n == 1
    then eof
    else if n == 2
    then would_block
    else if n == 3
    then busy
    else if n == 4
    then write_settling
    else if n == 5
    then rejected
    else if n == 6
    then closed
    else unnamed n

-- The errno values of the codes of `std::generic_category()` on Linux.
unfoldable pub errc_value : Errc → ℕ
errc_value invalid_argument = 22
errc_value result_out_of_range = 34
errc_value no_buffer_space = 105
errc_value not_enough_memory = 12
errc_value operation_canceled = 125

-- `system n` is the code `n` of `std::system_category()`, an errno value.
pub data ErrorCode : Type 0 where
  no_error : ErrorCode
  generic : Errc → ErrorCode
  net : NetErrc → ErrorCode
  system : ℕ → ErrorCode

-- `explicit operator bool`: the value is not 0.
abbrev pub is_error : ErrorCode → Bool
is_error no_error = false
is_error (generic e) = true
is_error (net e) = true
is_error (system zero) = false
is_error (system (suc n)) = true
