-- ===== src/Codec/Connection.antt =====
-- A connection's inbound side is a source for the codec.
use wsgnet.Conn.Inbound.{Inbound, peek, discard}
use wsgnet.Conn.Stream.{stream, IsGood, peek-stream}
use wsgnet.Conn.Consuming.{discard-stream}
use wsgnet.Codec.{Source}

abbrev pub inbound_source : Source Inbound
inbound_source = record {
  peek = peek;
  discard = discard;
  IsGood = IsGood;
  bytes = stream;
  peek_law = peek-stream;
  discard_law = discard-stream;
}
