-- ===== src/Extension/Emitter.antt =====
-- extension/extension.go: `Emitter`, the notifications of an extension.
use extension_sdk_go.Prelude.{String, Option}
use extension_sdk_go.Errors.{Error}
use extension_sdk_go.Json.Marshal.{encode}
use extension_sdk_go.Json.Encoding.{Encoding}
use extension_sdk_go.Protocol.Constants.{
  notification_log, notification_channel_message, notification_stream_chunk,
  notification_stream_end, notification_stream_error,
}
use extension_sdk_go.Protocol.Log.{LogParams, log_params_kind}
use extension_sdk_go.Protocol.Channel.{ChannelMessageParams, channel_message_params_kind}
use extension_sdk_go.Protocol.Provider.{
  StreamChunkParams, stream_chunk_params_kind, StreamEndParams, stream_end_params_kind,
  StreamErrorParams, stream_error_params_kind,
}
use extension_sdk_go.Jsonrpc.Transport.{Transport, send_notification}

module _ ⦃enc : Encoding⦄ where
  unfoldable pub log : (level message : String) → Transport → Option Error × Transport
  log level message t =
      let params : LogParams = record { level = level; message = message } in
      send_notification notification_log (encode (log_params_kind.marshal params)) t

  unfoldable pub emit_channel_message : ChannelMessageParams → Transport → Option Error × Transport
  emit_channel_message params t =
      send_notification notification_channel_message
        (encode (channel_message_params_kind.marshal params)) t

  unfoldable pub emit_stream_chunk : StreamChunkParams → Transport → Option Error × Transport
  emit_stream_chunk params t =
      send_notification notification_stream_chunk (encode (stream_chunk_params_kind.marshal params))
        t

  unfoldable pub emit_stream_end : StreamEndParams → Transport → Option Error × Transport
  emit_stream_end params t =
      send_notification notification_stream_end (encode (stream_end_params_kind.marshal params)) t

  unfoldable pub emit_stream_error : StreamErrorParams → Transport → Option Error × Transport
  emit_stream_error params t =
      send_notification notification_stream_error (encode (stream_error_params_kind.marshal params))
        t

-- A call of one of the five methods.
pub data Emission : Type 0 where
  log_call : (level message : String) → Emission
  channel_message_call : ChannelMessageParams → Emission
  stream_chunk_call : StreamChunkParams → Emission
  stream_end_call : StreamEndParams → Emission
  stream_error_call : StreamErrorParams → Emission

unfoldable pub emit_by : ⦃enc : Encoding⦄ → Emission → Transport → Option Error × Transport
unfolding log emit_channel_message emit_stream_chunk emit_stream_end emit_stream_error
emit_by (log_call level message) = log level message
emit_by (channel_message_call params) = emit_channel_message params
emit_by (stream_chunk_call params) = emit_stream_chunk params
emit_by (stream_end_call params) = emit_stream_end params
emit_by (stream_error_call params) = emit_stream_error params
