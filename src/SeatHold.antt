-- ===== src/SeatHold.antt =====
-- services/ticketing-was/concert/seat_hold.py: the seats of a concert in Redis. `Counter` has the
-- remain counter, `Expiry` what a sold-out show leaves, `Guard` the confirmed seats, and `Hold` the
-- holds of booking references. The modules below them prove.
pub mod Config
pub mod Expiry
pub mod Counter
pub mod Guard
pub mod Hold
pub mod Views
mod Examples
