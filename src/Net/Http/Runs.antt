-- ===== src/Net/Http/Runs.antt =====
-- A response that arrives in two pieces.
use hyperliquid_cpp.Base.{ℕ, ◌≡◌, refl, some, List, [], ◌++◌, arith, length, take, codes}
use hyperliquid_cpp.Base.Int.{pos}
use hyperliquid_cpp.Net.Http.Text.{
  to_lower, starts_by, starts_with, iequals_prefix, trim_front, trim_back_step, trim_back, trim,
  shifted, find, is_found, contains_token_ci, digit_value, read_digits, in_range, from_chars_u64,
  positive, from_chars_int,
}
use hyperliquid_cpp.Net.Http.Head.{
  fixed_body, finished, HttpResponseParser, need_more, complete, empty_response, fresh_parser,
  with_length, header_line, on_line, header_step, header_lines, no_body, choose_body, after_headers,
  on_status_line, on_first_line, parse_head,
}
use hyperliquid_cpp.Net.Http.Feed.{
  parsed, take_head, head_round, data_round, feed_round, is_finished, ended, after_round, feed_loop,
}
use hyperliquid_cpp.Net.Http.Bytes.{IsBetween}
use hyperliquid_cpp.Net.Http.Pieces.{feed_loop-append, feed_loop-feed_bytes}
use hyperliquid_cpp.Net.Http.Bytes.{feed_bytes}

abbrev first_piece : List ℕ
first_piece = codes "HTTP/1.1 200 OK\r\ncontent-length: 2\r\n\r\nh"

abbrev second_piece : List ℕ
second_piece = codes "i!"

abbrev waiting : HttpResponseParser
waiting = record fresh_parser {
  phase = fixed_body;
  head = take 38 first_piece;
  remaining = 1;
  response = record empty_response { status = pos 200; body = codes "h" };
}

first_call : feed_loop (length first_piece) fresh_parser first_piece ≡ some (waiting, need_more, [])
unfolding feed_loop is_finished after_round feed_round head_round take_head find starts_with
    starts_by parsed parse_head on_first_line on_status_line from_chars_int positive read_digits
    digit_value after_headers ended data_round choose_body header_line header_lines header_step
    no_body on_line with_length contains_token_ci from_chars_u64 iequals_prefix in_range is_found
    shifted to_lower trim trim_back trim_back_step trim_front
first_call = refl

second_call :
    feed_loop 2 waiting second_piece
    ≡ some (
      record waiting {
        phase = finished;
        remaining = 0;
        response = record empty_response { status = pos 200; body = codes "hi" };
      },
      complete,
      codes "!",
    )
unfolding feed_loop is_finished after_round feed_round head_round take_head find starts_with
    starts_by parsed parse_head on_first_line on_status_line from_chars_int positive read_digits
    digit_value after_headers ended data_round choose_body header_line header_lines header_step
    no_body on_line with_length contains_token_ci from_chars_u64 iequals_prefix in_range is_found
    shifted to_lower trim trim_back trim_back_step trim_front
second_call = refl

feed_loop-append_example :
    feed_loop (length (first_piece ++ second_piece)) fresh_parser (first_piece ++ second_piece)
    ≡ feed_loop (length second_piece) waiting second_piece
unfolding find starts_with starts_by IsBetween
feed_loop-append_example =
    feed_loop-append fresh_parser waiting first_piece second_piece (refl, omega arith)
      (refl, omega arith) (omega arith) first_call

feed_loop-feed_bytes_example :
    feed_loop 2 waiting second_piece ≡ some (feed_bytes waiting second_piece)
unfolding IsBetween
feed_loop-feed_bytes_example =
    feed_loop-feed_bytes 2 waiting second_piece (omega arith) (omega arith)
