-- ===== src/Callback.antt =====
-- The callbacks of the producer: delivery reports (ProducerCallback.cpp), the default receiver of
-- them (ProducerDefaultSendCallback.cpp) and the events (ProducerEventCallback.cpp).
pub mod Delivery
pub mod DefaultSend
pub mod Events
