-- ===== src/CommonHeader.antt =====
-- common_header.cpp and common_header.h: the 19 bytes in front of every market data message.
-- A pointer with its length is `none` for a null pointer, else the bytes that it may read.
pub mod Layout
pub mod Getters
use taifex_cpp_sdk.Prelude.{
  ℕ, ◌+◌, ◌-◌, ◌%◌, ◌^◌, Bool, true, false, Option, none, some, List, [], ◌∷◌, length, get_or,
  slice, replicate, ltb, ◌==◌, if◌then◌else◌,
}
use taifex_cpp_sdk.ErrorCodes.{
  Exception, Result, ok, err, parsing_error, out_of_range, invalid_argument, is_runtime_error,
  catch, ◌>>=◌,
}
use taifex_cpp_sdk.Conversion.{stoul, stoull}
use taifex_cpp_sdk.PackBcd.{pack_bcd_to_ascii}

abbrev pub header_size : ℕ
header_size = 19

pub record CommonHeader : Type 0 where
  pub esc_code : ℕ
  pub transmission_code : ℕ
  pub message_kind : ℕ
  pub information_time_bcd : List ℕ
  pub channel_id_bcd : List ℕ
  pub channel_seq_bcd : List ℕ
  pub version_no_bcd : ℕ
  pub body_length_bcd : List ℕ

-- `CommonHeader()`
abbrev pub default_header : CommonHeader
default_header = record {
  esc_code = 0;
  transmission_code = 0;
  message_kind = 0;
  information_time_bcd = replicate 6 0;
  channel_id_bcd = replicate 2 0;
  channel_seq_bcd = replicate 5 0;
  version_no_bcd = 0;
  body_length_bcd = replicate 2 0;
}

-- The result, and `out_header` after the call.
unfoldable pub parse : Option (List ℕ) → CommonHeader → Bool × CommonHeader
parse none out_header = (false, out_header)
parse (some buffer) out_header =
    if ltb (length buffer) header_size
    then (false, out_header)
    else (let time_at : ℕ = 1 + 1 + 1 in
        let channel_at : ℕ = time_at + 6 in
        let seq_at : ℕ = channel_at + 2 in
        let version_at : ℕ = seq_at + 5 in
        let body_at : ℕ = version_at + 1 in
        let offset : ℕ = body_at + 2 in
        (
          offset == header_size,
          record {
            esc_code = get_or buffer 0 0;
            transmission_code = get_or buffer 1 0;
            message_kind = get_or buffer 2 0;
            information_time_bcd = slice time_at 6 buffer;
            channel_id_bcd = slice channel_at 2 buffer;
            channel_seq_bcd = slice seq_at 5 buffer;
            version_no_bcd = get_or buffer version_at 0;
            body_length_bcd = slice body_at 2 buffer;
          },
        ))

-- `catch (ParsingError)`, then `catch (std::runtime_error)`, both rethrown as a ParsingError.
rethrow_decoding : Exception → Exception
rethrow_decoding parsing_error = parsing_error
rethrow_decoding e = if is_runtime_error e then parsing_error else e

bcd_array_to_numeric_string : List ℕ → ℕ → Result (List ℕ)
unfolding rethrow_decoding is_runtime_error
bcd_array_to_numeric_string bcd_array num_digits =
    catch (pack_bcd_to_ascii bcd_array num_digits) (λ e. err (rethrow_decoding e))

bcd_byte_to_numeric_string : ℕ → ℕ → Result (List ℕ)
unfolding rethrow_decoding is_runtime_error
bcd_byte_to_numeric_string bcd_byte num_digits =
    catch (pack_bcd_to_ascii (bcd_byte ∷ []) num_digits) (λ e. err (rethrow_decoding e))

-- `catch (std::out_of_range)` and `catch (std::invalid_argument)`
rethrow_conversion : Exception → Exception
rethrow_conversion out_of_range = parsing_error
rethrow_conversion invalid_argument = parsing_error
rethrow_conversion e = e

-- A value above `limit` is thrown as out of range, any other cast to the narrower type.
narrow : ℕ → ℕ → Result ℕ
narrow limit val = if ltb limit val then err out_of_range else ok (val % (limit + 1))

pub get_information_time_string : CommonHeader → Result (List ℕ)
unfolding bcd_array_to_numeric_string
get_information_time_string h = bcd_array_to_numeric_string h.information_time_bcd 12

pub get_channel_id : CommonHeader → Result ℕ
unfolding bcd_array_to_numeric_string rethrow_conversion narrow
get_channel_id h = do
  s ← bcd_array_to_numeric_string h.channel_id_bcd 4
  catch (stoul s >>= narrow (2 ^ 32 - 1)) (λ e. err (rethrow_conversion e))

pub get_channel_seq : CommonHeader → Result ℕ
unfolding bcd_array_to_numeric_string rethrow_conversion
get_channel_seq h = do
  s ← bcd_array_to_numeric_string h.channel_seq_bcd 10
  catch (stoull s) (λ e. err (rethrow_conversion e))

pub get_version_no : CommonHeader → Result ℕ
unfolding bcd_byte_to_numeric_string rethrow_conversion narrow
get_version_no h = do
  s ← bcd_byte_to_numeric_string h.version_no_bcd 2
  catch (stoul s >>= narrow (2 ^ 8 - 1)) (λ e. err (rethrow_conversion e))

pub get_body_length : CommonHeader → Result ℕ
unfolding bcd_array_to_numeric_string rethrow_conversion narrow
get_body_length h = do
  s ← bcd_array_to_numeric_string h.body_length_bcd 4
  catch (stoul s >>= narrow (2 ^ 16 - 1)) (λ e. err (rethrow_conversion e))
